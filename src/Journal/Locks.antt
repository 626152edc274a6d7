-- ===== src/Journal/Locks.antt =====
-- When `Claim` of internal/control/journal.go lets a command execute.
use ppflight_agent.Prelude.{
  String, ◌≡◌, refl, ap, sym, ◌∙◌, Bool, true, false, Option, none, some, [], ◌∷◌, if◌then◌else◌,
  All,
}
use ppflight_agent.Prelude.Exec.{Result, ok, err, Exec, ◌>>=◌, return, fail, bind_inversion}
use mathlib.Core.Path.{subst}
use ppflight_agent.Prelude.Disk.{quiet, quiet-files}
use ppflight_agent.Control.Command.{Command}
use ppflight_agent.Journal.Types.{
  JournalRecord, Entries, Journal, Outside, Err, io, identity_invalid,
}
use ppflight_agent.Journal.Outbox.{decode_inversion}
use ppflight_agent.Journal.Scans.{
  Tools, holds_resource, scan, list_files, used_by, has_identity, scan_identity, identity_used,
  holds_unretired, resource_busy_locked,
}
use ppflight_agent.Journal.{decode}

module _ (out : Outside) (tools : Tools) where
  -- A listed file that is readable and whose record passes.
  abbrev pub Passes : (JournalRecord → Type 0) → String × Option JournalRecord → Type 0
  Passes P e = (r : JournalRecord) × (e.1 ≡ some r) × P r

  -- A scan that found nothing has read every file, and tested its record on these files.
  pub scan-none :
      {A : Type 0} (test : JournalRecord → Exec Journal Err (Option A)) (P : JournalRecord → Type 0)
      (fs : Entries)
      → ((r : JournalRecord) (d : Journal) → (test r d).1 ≡ d)
      → ((r : JournalRecord) (d : Journal) → d.files ≡ fs → (test r d).0 ≡ ok none → P r)
      → (files : Entries) (d d' : Journal) → d.files ≡ fs
      → scan out tools test files d ≡ (ok none, d')
      → (d'.files ≡ fs) × All (Passes P) files
  unfolding scan
  scan-none test P fs still meets [] d d' s e = (ap (λ z. z.1.files) (sym e) ∙ s, tt)
  scan-none {A} test P fs still meets ((name, content) ∷ rest) d d' s e =
      let (_, u, e1, k1) = bind_inversion (quiet io) _ d e in
      let (r, v, e2, k2) = bind_inversion (λ d. (decode out (some content), d)) _ u k1 in
      let (o, w, e3, k3) = bind_inversion (test r) _ v k2 in
      let su : u.files ≡ fs = ap (λ z. z.1.files) (sym e1) ∙ quiet-files io d ∙ s in
      let sv : v.files ≡ fs = ap (λ z. z.1.files) (sym e2) ∙ su in
      let sw : w.files ≡ fs = ap (λ z. z.1.files) (sym e3) ∙ ap (λ z. z.files) (still r v) ∙ sv in
      let (c, g) = decode_inversion out (some content) r (ap (λ z. z.0) e2) in
      go r o w (λ m. (r, cc, meets r v sv (ap (λ z. z.0) e3 ∙ ap ok m)))
        (scan-none test P fs still meets rest w d' sw) k3
    where
      go :
          (r : JournalRecord) (o : Option A) (w : Journal)
          → (o ≡ none → Passes P (name, content))
          → (scan out tools test rest w ≡ (ok none, d') → (d'.files ≡ fs) × All (Passes P) rest)
          → elim o as (λ _. Exec Journal Err (Option A)) [
            | some a ↦ return (some a)
            | none ↦ scan out tools test rest
          ]
              w
            ≡ (ok none, d')
          → (d'.files ≡ fs) × All (Passes P) ((name, content) ∷ rest)
      go r (some a) w p h k = absurd (cc (ap (λ z. z.0) k))
      go r none w p h k = let (a, b) = h k in (a, (p refl, b))

  listed :
      (d u : Journal) (files : Entries)
      → list_files out tools d ≡ (ok files, u)
      → (files ≡ tools.list_directory d.files) × (u.files ≡ d.files)
  listed d u files e =
      let (_, v, e1, k1) =
        bind_inversion (quiet io) (λ _ d. (ok (tools.list_directory d.files), d)) d e in
      let same : v.files ≡ d.files = ap (λ z. z.1.files) (sym e1) ∙ quiet-files io d in
      let found : tools.list_directory v.files ≡ files = cc (ap (λ z. z.0) k1) in
      (sym found ∙ ap tools.list_directory same, ap (λ z. z.1.files) (sym k1) ∙ same)

  -- Every record of the directory passes.
  abbrev pub AllPass : (JournalRecord → Type 0) → Entries → Type 0
  AllPass P fs = All (Passes P) (tools.list_directory fs)

  -- A scan of the directory that found nothing.
  scan_directory-none :
      {A : Type 0} (test : JournalRecord → Exec Journal Err (Option A)) (P : JournalRecord → Type 0)
      (d d' : Journal)
      → ((r : JournalRecord) (u : Journal) → (test r u).1 ≡ u)
      → ((r : JournalRecord) (u : Journal) → u.files ≡ d.files → (test r u).0 ≡ ok none → P r)
      → (list_files out tools >>= scan out tools test) d ≡ (ok none, d')
      → (d'.files ≡ d.files) × AllPass P d.files
  scan_directory-none test P d d' still meets e =
      let (files, u, e1, k1) = bind_inversion (list_files out tools) (scan out tools test) d e in
      let (l, su) = listed d u files e1 in
      let (a, b) = scan-none test P d.files still meets files u d' su k1 in
      (a, subst (All (Passes P)) l b)

  -- No other command has the operation or the key of this one.
  abbrev pub IsUnused : Command → JournalRecord → Type 0
  IsUnused c r = used_by out tools c r ≡ none

  pub identity_used-none :
      (c : Command) (d d' : Journal)
      → identity_used out tools c d ≡ (ok none, d')
      → (d'.files ≡ d.files) × AllPass (IsUnused c) d.files
  unfolding identity_used scan_identity
  identity_used-none c d d' = go (has_identity out tools c)
    where
      go :
          (b : Bool)
          → (if b then scan_identity out tools c else fail identity_invalid) d ≡ (ok none, d')
          → (d'.files ≡ d.files) × AllPass (IsUnused c) d.files
      go true e =
          scan_directory-none (λ r. return (used_by out tools c r)) (IsUnused c) d d' (λ r u. refl)
            (λ r u s k. cc) e
      go false e = absurd (cc (ap (λ z. z.0) e))

  -- The record holds the resource only if its retirement is committed.
  abbrev pub IsReleased : Entries → String → JournalRecord → Type 0
  IsReleased fs key r = holds_resource key r ≡ true → tools.retirement_committed fs r ≡ ok true

  holds_unretired_still :
      (key : String) (r : JournalRecord) (u : Journal) → (holds_unretired out tools key r u).1 ≡ u
  unfolding holds_unretired
  holds_unretired_still key r u = go (holds_resource key r) (tools.retirement_committed u.files r)
    where
      go :
          (b : Bool) (o : Result Err Bool)
          → let e : Result Err (Option (Unit {0})) × Journal =
              if b
              then elim o [
                | err e ↦ (err e, u)
                | ok true ↦ (ok none, u)
                | ok false ↦ (ok (some tt), u)
              ]
              else (ok none, u) in
            e.1 ≡ u
      go true (err e) = refl
      go true (ok true) = refl
      go true (ok false) = refl
      go false o = refl

  holds_unretired-none :
      (key : String) (r : JournalRecord) (u : Journal)
      → (holds_unretired out tools key r u).0 ≡ ok none
      → IsReleased u.files key r
  unfolding holds_unretired
  holds_unretired-none key r u = go (holds_resource key r) (tools.retirement_committed u.files r)
    where
      go :
          (b : Bool) (o : Result Err Bool)
          → (let e : Result Err (Option (Unit {0})) × Journal =
                if b
                then elim o [
                  | err e ↦ (err e, u)
                  | ok true ↦ (ok none, u)
                  | ok false ↦ (ok (some tt), u)
                ]
                else (ok none, u) in
              e.0 ≡ ok none)
          → b ≡ true
          → o ≡ ok true
      go true (err e) k h = absurd (cc)
      go true (ok true) k h = refl
      go true (ok false) k h = absurd (cc)
      go false o k h = absurd (cc)

  pub resource_busy-none :
      (key : String) (d d' : Journal)
      → resource_busy_locked out tools key d ≡ (ok none, d')
      → (d'.files ≡ d.files) × AllPass (IsReleased d.files key) d.files
  unfolding resource_busy_locked
  resource_busy-none key d d' =
      scan_directory-none (holds_unretired out tools key) (IsReleased d.files key) d d'
        (holds_unretired_still key)
        (λ r u s k. subst (λ fs. IsReleased fs key r) s (holds_unretired-none key r u k))
