-- ===== src/Journal/Receipts.antt =====
-- No call of the journal takes a receipt away: the lemmas on files, and on what every call is made of.
pub mod Calls
pub mod Recoveries
pub mod Reads
pub mod Claims
pub mod Scanning
pub mod Intent
pub mod Running
use ppflight_agent.Prelude.{
  String, ◌≡◌, ◌≢◌, refl, ap, sym, ◌∙◌, Bool, true, false, not, Option, none, some, List, [], ◌∷◌,
  ◌=ˢ◌, ◌⊎◌, inl, inr, if◌then◌else◌, Bool-cases, str_eq→eq, eq_iff,
}
use ppflight_agent.Prelude.Exec.{
  Result, ok, err, Exec, ◌>>=◌, ◌>>◌, return, fail, Post, Triple, Triple-bind, Triple-return,
  Triple-fail, Triple-imp,
}
use ppflight_agent.Prelude.Disk.{quiet, quiet-files, atomic_write, atomic_write-cases}
use ppflight_agent.Journal.Types.{Receipt, JournalRecord, Entries, Journal, Outside, Err, io}
use ppflight_agent.Journal.Entries.{find_entry, put_entry, find-put}
use ppflight_agent.Journal.{decode, read, write}
use ppflight_agent.Journal.Outbox.{Holds, read_inversion}

find-put_other :
    (name other : String) (r : JournalRecord) (es : Entries)
    → (name =ˢ other) ≡ false
    → find_entry other (put_entry name r es) ≡ find_entry other es
unfolding find_entry put_entry
find-put_other name other r [] h = rw h refl
find-put_other name other r ((n, old) ∷ rest) h = elim (Bool-cases (n =ˢ name)) [
  | inl e ↦ rw (e, h, str_eq→eq n name e, h) refl
  | inr e ↦ rw (e, find-put_other name other r rest h) refl
]

-- The file of this name holds a record with a receipt.
abbrev pub HasReceipt : String → Journal → Type 0
HasReceipt n d =
    (r : JournalRecord) × (x : Receipt) × (find_entry n d.files ≡ some (some r))
    × (r.receipt ≡ some x)

-- The call leaves a receipt in every file that has one.
abbrev pub Keeps : {A : Type 0} → Exec Journal Err A → Type 0
Keeps m = (n : String) → Triple (HasReceipt n) m (λ _. HasReceipt n) (λ _. HasReceipt n)

pub same_files-HasReceipt :
    (n : String) (d e : Journal) → e.files ≡ d.files → HasReceipt n d → HasReceipt n e
same_files-HasReceipt n d e k h = (h.0, h.1, ap (λ f. find_entry n f) k ∙ h.2, h.3)

put-HasReceipt :
    (name n : String) (r : JournalRecord) (d e : Journal)
    → e.files ≡ put_entry name r d.files
    → ((name =ˢ n) ≡ true → (x : Receipt) × (r.receipt ≡ some x))
    → HasReceipt n d
    → HasReceipt n e
put-HasReceipt name n r d e k s h = elim (Bool-cases (name =ˢ n)) [
  | inl m ↦
      let (x, y) = s m in
      (
        r,
        x,
        ap (λ f. find_entry n f) k
            ∙ ap (λ z. find_entry z (put_entry name r d.files)) (sym (str_eq→eq name n m))
            ∙ find-put name r d.files,
        y,
      )
  | inr m ↦ (h.0, h.1, ap (λ f. find_entry n f) k ∙ find-put_other name n r d.files m ∙ h.2, h.3)
]

-- A write of this record at this name, on a file for which it is right.
pub put-Keeps :
    (name n : String) (r : JournalRecord) (d : Journal)
    → ((name =ˢ n) ≡ true → (x : Receipt) × (r.receipt ≡ some x))
    → HasReceipt n d
    → HasReceipt n (atomic_write io (put_entry name r) d).1
put-Keeps name n r d s h =
    let e = (atomic_write io (put_entry name r) d).1 in
    elim (atomic_write-cases io (put_entry name r) d) [
      | inl k ↦ put-HasReceipt name n r d e k.1 s h
      | inr (inl k) ↦ same_files-HasReceipt n d e k.1 h
      | inr (inr k) ↦ put-HasReceipt name n r d e k.1 s h
    ]

module _ {A : Type 0} where
  -- Where both ends keep one condition, it is enough that the state does.
  pub state-Triple :
      (P Q : Journal → Type 0) (m : Exec Journal Err A)
      → ((d : Journal) → P d → Q (m d).1)
      → Triple P m (λ _. Q) (λ _. Q)
  state-Triple P Q m k = record { run = λ d h. go d (m d).0 (k d h) }
    where
      go : (d : Journal) (o : Result Err A) → Q (m d).1 → Post (λ _. Q) (λ _. Q) o (m d).1
      go d (ok a) q = q
      go d (err e) q = q

  pub return-Keeps : (a : A) → Keeps (return a)
  return-Keeps a n = Triple-return a (λ d h. h)

  pub fail-Keeps : (e : Err) → Keeps (fail {A = A} e)
  fail-Keeps e n = Triple-fail e (λ d h. h)

  -- A result that is computed without a change.
  pub pure-Keeps : (f : Journal → Result Err A) → Keeps (λ d. (f d, d))
  pure-Keeps f n = state-Triple (HasReceipt n) (HasReceipt n) (λ d. (f d, d)) (λ d h. h)

  pub if-Keeps :
      (b : Bool) (m k : Exec Journal Err A)
      → Keeps m
      → Keeps k
      → Keeps (λ d. if b then m d else k d)
  if-Keeps true m k h g = h
  if-Keeps false m k h g = g

  pub choose-Keeps :
      (b : Bool) (m k : Exec Journal Err A) → Keeps m → Keeps k → Keeps (if b then m else k)
  choose-Keeps true m k h g = h
  choose-Keeps false m k h g = g

module _ {A B : Type 0} where
  pub bind-Keeps :
      (m : Exec Journal Err A) (f : A → Exec Journal Err B)
      → Keeps m
      → ((a : A) → Keeps (f a))
      → Keeps (m >>= f)
  bind-Keeps m f k h n = Triple-bind (λ _. HasReceipt n) m f (k n) (λ a. h a n)

pub quiet-Keeps : Keeps (quiet io)
quiet-Keeps n =
    state-Triple (HasReceipt n) (HasReceipt n) (quiet io)
      (λ d h. same_files-HasReceipt n d (quiet {E = Err} io d).1 (quiet-files io d) h)

module _ (out : Outside) where
  pub write-Keeps :
      (id : String) (r : JournalRecord) (x : Receipt) → r.receipt ≡ some x → Keeps (write out id r)
  unfolding write
  write-Keeps id r x e n =
      state-Triple (HasReceipt n) (HasReceipt n) (write out id r)
        (λ d h. put-Keeps (out.path id) n r d (λ _. (x, e)) h)

  pub read-Keeps : (id : String) → Keeps (read out id)
  unfolding read
  read-Keeps id =
      bind-Keeps (quiet io) (λ _ d. (decode out (find_entry (out.path id) d.files), d)) quiet-Keeps
        (λ _. pure-Keeps (λ d. decode out (find_entry (out.path id) d.files)))
