-- ===== src/Runstate/Writes.antt =====
-- What a write of the sequence file leaves, and what a request for a number leaves.
use mathlib.Core.Path.{subst}
use ppflight_agent.Prelude.{
  ℕ, ◌+◌, ◌≤◌, ◌<◌, ◌≡◌, refl, Bool, true, false, Option, none, some, arith, ◌⊎◌, inl, inr,
}
use ppflight_agent.Prelude.Exec.{ok, err}
use ppflight_agent.Prelude.Disk.{Disk, quiet, quiet-cases, atomic_write-cases}
use ppflight_agent.Runstate.{
  Document, File, State, Stream, io, sequence, advanced, file_of, persist, next, exhausted,
}
use ppflight_agent.Runstate.Events.{ask, System, answer, is_stream, saved, IsAhead}

-- A write leaves the old file or the new one, and the new one if it succeeds.
pub persist-cases :
    (v : Document) (d : Disk File)
    → (((persist v d).0 ≡ ok tt) × ((persist v d).1.files ≡ file_of v))
      ⊎ (((persist v d).0 ≡ err io)
          × (((persist v d).1.files ≡ d.files) ⊎ ((persist v d).1.files ≡ file_of v)))
unfolding persist
persist-cases v d =
    ground (arith, quiet-cases io d, atomic_write-cases io (λ (x : File). file_of v) (quiet io d).1)

IsAhead-le : (k : Stream) (m n : ℕ) (s : System) → m ≤ n → IsAhead k n s → IsAhead k m s
IsAhead-le k m n s l h = record {
  file_ahead = omega (arith, h.file_ahead);
  process_ahead = λ v e. omega (arith, h.process_ahead v e);
}

-- A file that is the old one, or that of a document with at least `n`, has at least `n`.
file_ahead-persist :
    (k : Stream) (n : ℕ) (v : Document) (d : Disk File)
    → n ≤ saved k d.files
    → n ≤ sequence k v
    → n ≤ saved k (persist v d).1.files
file_ahead-persist k n v d f p = elim (persist-cases v d) [
  | inl (_, e) ↦ rw e p
  | inr (_, inl e) ↦ rw e f
  | inr (_, inr e) ↦ rw e p
]

sequence-advanced :
    (j k : Stream) (v : Document)
    → (sequence k (advanced j v) ≡ sequence k v + 1) ⊎ (sequence k (advanced j v) ≡ sequence k v)
sequence-advanced j k v = ground arith

-- What `next` answers, and the process after it.
next-cases :
    (j : Stream) (s : State)
    → ((next j s).0 ≡ err exhausted) × ((next j s).1 ≡ s)
      ⊎ (((next j s).0 ≡ ok (sequence j s.value + 1))
          × ((next j s).1.value ≡ advanced j s.value)
          × ((next j s).1.disk.files ≡ file_of (advanced j s.value)))
      ⊎ (((next j s).0 ≡ err io)
          × ((next j s).1.value ≡ s.value)
          × ((next j s).1.disk.files ≡ (persist (advanced j s.value) s.disk).1.files))
unfolding next
next-cases j s = ground (arith, persist-cases (advanced j s.value) s.disk)

-- A number is above all issued before, and then the last issued; nothing else changes what is.
abbrev pub Outcome : Stream → ℕ → Bool → Option ℕ → System → Type 0
Outcome k n true (some m) t = (n < m) × IsAhead k m t
Outcome k n _ _ t = IsAhead k n t

abbrev lost : State → System
lost t = record { process = some t.value; disk = t.disk }

IsAhead-next :
    (k : Stream) (n : ℕ) (t : State)
    → n ≤ saved k t.disk.files
    → n ≤ sequence k t.value
    → IsAhead k n (lost t)
IsAhead-next k n t f p = record {
  file_ahead = f;
  process_ahead = λ v e. subst (λ x. n ≤ sequence k x) (same e) p;
}
  where
    same : {a b : Document} → some a ≡ some b → a ≡ b
    same e = cc

-- What the stream itself has issued.
Outcome-same :
    (k : Stream) (n m : ℕ) (t : System) (b : Bool)
    → (b ≡ true → n < m × IsAhead k m t)
    → (b ≡ false → IsAhead k n t)
    → Outcome k n b (some m) t
Outcome-same k n m t true yes' no' = yes' refl
Outcome-same k n m t false yes' no' = no' refl

pub Outcome-none :
    (k : Stream) (n : ℕ) (b : Bool) (t : System) → IsAhead k n t → Outcome k n b none t
Outcome-none k n true t h = h
Outcome-none k n false t h = h

is_stream_same : (k j : Stream) → is_stream k (ask j) ≡ true → k ≡ j
is_stream_same k j h = ground arith

sequence-advanced_self : (j : Stream) (v : Document) → sequence j (advanced j v) ≡ sequence j v + 1
sequence-advanced_self j v = ground arith

pub ask_running-Outcome :
    (k j : Stream) (n : ℕ) (s : State)
    → n ≤ saved k s.disk.files
    → n ≤ sequence k s.value
    → Outcome k n (is_stream k (ask j)) (answer (next j s).0) (lost (next j s).1)
ask_running-Outcome k j n s f p = elim (next-cases j s) [
  | inl (r, t) ↦ rw (r, t) (Outcome-none k n _ _ (IsAhead-next k n s f p))
  | inr (inr (r, v, d)) ↦ rw r (
      Outcome-none k n _ _ (
        IsAhead-next k n (next j s).1
          (rw d (
            file_ahead-persist k n (advanced j s.value) s.disk f
              (omega (arith, sequence-advanced j k s.value))))
          (rw v p)))
  | inr (inl (r, v, d)) ↦ rw r (
      Outcome-same k n (sequence j s.value + 1) _ _
        (λ same.
          let e : k ≡ j = is_stream_same k j same in
          let up : sequence k (advanced j s.value) ≡ sequence j s.value + 1 =
            rw e (sequence-advanced_self j s.value) in
          (
            subst (λ x. n < sequence x s.value + 1) e (omega arith),
            IsAhead-next k (sequence j s.value + 1) (next j s).1 (rw d (omega (arith, up)))
                (rw v (omega (arith, up))),
          ))
        (λ other.
          IsAhead-next k n (next j s).1 (rw d (omega (arith, sequence-advanced j k s.value)))
            (rw v (omega (arith, sequence-advanced j k s.value)))))
]
