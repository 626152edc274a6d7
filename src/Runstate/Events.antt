-- ===== src/Runstate/Events.antt =====
-- The events of processes that run and restart over one sequence file, and what they issue.
use ppflight_agent.Prelude.{
  ℕ, ◌≤◌, String, ◌≡◌, Bool, true, false, Option, none, some, List, [], ◌∷◌,
}
use ppflight_agent.Prelude.Exec.{Result, ok, err}
use ppflight_agent.Prelude.Disk.{Disk}
use ppflight_agent.Runstate.{
  Document, File, absent, present, State, Stream, website, monitoring, monitoring_audit, Err,
  sequence, open_state, next,
}

-- A process that runs, or none, and the file.
pub record System : Type 0 where
  pub process : Option Document
  pub disk : Disk File

pub data Event : Type 0 where
  -- The process asks for the next number of a stream.
  ask : Stream → Event
  -- The process is lost, if there is one, and another one opens the file.
  restart : String → Option String → Event

abbrev pub started : Result Err Document → Option Document
started (ok v) = some v
started (err e) = none

abbrev pub answer : Result Err ℕ → Option ℕ
answer (ok n) = some n
answer (err e) = none

ask_running : Stream → State → Option ℕ × System
ask_running k s =
    let (r, t) = next k s in (answer r, record { process = some t.value; disk = t.disk })

-- One event: the number that it issues, if it does, and the system after it.
unfoldable pub step : Event → System → Option ℕ × System
unfolding ask_running
step (ask k) s = elim s.process [
  | none ↦ (none, s)
  | some v ↦ ask_running k (record { value = v; disk = s.disk })
]
step (restart filename id) s =
    let (r, d) = open_state filename id s.disk in (none, record { process = started r; disk = d })

abbrev pub is_stream : Stream → Event → Bool
is_stream website (ask website) = true
is_stream monitoring (ask monitoring) = true
is_stream monitoring_audit (ask monitoring_audit) = true
is_stream _ _ = false

abbrev pub prepend : Bool → Option ℕ → List ℕ → List ℕ
prepend true (some n) ns = n ∷ ns
prepend _ _ ns = ns

-- The numbers of a stream that a run of events issues, in order.
unfoldable pub issued : Stream → List Event → System → List ℕ
issued k [] s = []
issued k (e ∷ es) s = let (o, t) = step e s in prepend (is_stream k e) o (issued k es t)

-- The number that the file holds for a stream.
abbrev pub saved : Stream → File → ℕ
saved k absent = 0
saved k (present none) = 0
saved k (present (some v)) = sequence k v

-- Nothing above `n` was issued: the process and the file are there at least.
pub record IsAhead (k : Stream) (n : ℕ) (s : System) : Type 0 where
  pub file_ahead : n ≤ saved k s.disk.files
  pub process_ahead : (v : Document) → s.process ≡ some v → n ≤ sequence k v
