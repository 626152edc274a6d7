-- ===== src/Runstate/Monotone.antt =====
-- No sequence number is issued twice, across disk failures, crashes and restarts.
use ppflight_agent.Prelude.{
  ℕ, ◌<◌, ◌≡◌, Bool, true, false, Option, none, some, List, [], ◌∷◌, inl, inr, Option-cases,
}
use ppflight_agent.Prelude.Exec.{Result, ok, err}
use ppflight_agent.Runstate.{Document, Stream, Err}
use ppflight_agent.Runstate.Events.{
  ask, restart, System, Event, started, step, is_stream, prepend, issued, IsAhead,
}
use ppflight_agent.Runstate.Writes.{Outcome, Outcome-none, ask_running-Outcome}
use ppflight_agent.Runstate.Opening.{open_state-Opened}

started-some : (r : Result Err Document) (v : Document) → started r ≡ some v → r ≡ ok v
started-some (ok w) v e = cc
started-some (err x) v e = absurd (cc)

step-Outcome :
    (k : Stream) (n : ℕ) (e : Event) (s : System)
    → IsAhead k n s
    → Outcome k n (is_stream k e) (step e s).0 (step e s).1
unfolding step
step-Outcome k n (restart filename id) s h =
    let (f, p) = open_state-Opened k n filename id s.disk h.file_ahead in
    Outcome-none k n (is_stream k (restart filename id)) _
      (record { file_ahead = f; process_ahead = λ v e. p v (started-some _ v e) })
step-Outcome k n (ask j) s h = elim (Option-cases s.process) [
  | inl e ↦ rw e (
      Outcome-none k n (is_stream k (ask j)) _
        (record { file_ahead = h.file_ahead; process_ahead = λ v p. absurd (cc) }))
  | inr (v, e) ↦ rw e (
      ask_running-Outcome k j n (record { value = v; disk = s.disk }) h.file_ahead
        (h.process_ahead v e))
]

-- Each number is above `n`, and above those before it.
abbrev pub Climbs : ℕ → List ℕ → Type 0
Climbs n [] = Unit
Climbs n (m ∷ ms) = (n < m) × Climbs m ms

Climbs-prepend :
    (k : Stream) (n : ℕ) (b : Bool) (o : Option ℕ) (t : System) (ms : List ℕ)
    → ((j : ℕ) → IsAhead k j t → Climbs j ms)
    → Outcome k n b o t
    → Climbs n (prepend b o ms)
Climbs-prepend k n true (some m) t ms up h = (h.0, up m h.1)
Climbs-prepend k n true none t ms up h = up n h
Climbs-prepend k n false (some m) t ms up h = up n h
Climbs-prepend k n false none t ms up h = up n h

-- However the requests of the streams and the restarts of the process alternate, and whatever the
-- disk does, the numbers issued for a stream increase strictly, and are all above n, if the file and
-- the running process, if any, hold at least n.
pub issued_climb :
    (k : Stream) (n : ℕ) (es : List Event) (s : System) → IsAhead k n s → Climbs n (issued k es s)
unfolding issued
issued_climb k n [] s h = tt
issued_climb k n (e ∷ es) s h =
    Climbs-prepend k n (is_stream k e) (step e s).0 (step e s).1 (issued k es (step e s).1)
      (λ j g. issued_climb k j es (step e s).1 g) (step-Outcome k n e s h)
