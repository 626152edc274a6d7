-- ===== src/Control/World.antt =====
-- The state of the control service (internal/control/service.go) that an admission changes: the journal, the
-- dispatcher, and the two queues that take receipts and audit events. Which commands were ever handed
-- to a worker is recorded beside it.
use ppflight_agent.Prelude.{String, Bool, not, ◌&&◌, List, ◌∷◌, if◌then◌else◌}
use ppflight_agent.Prelude.Exec.{Result, ok, err, Exec, ◌>>◌}
use ppflight_agent.Prelude.Disk.{quiet}
use ppflight_agent.Journal.Types.{Receipt, Event, Journal, Err, io}
use ppflight_agent.Control.Command.{Command}
use ppflight_agent.Control.Dispatcher.{Job, Dispatcher, submit, has_capacity}

pub record World : Type 0 where
  pub journal : Journal
  pub dispatcher : Dispatcher
  pub receipts : List Receipt
  pub audits : List Event
  pub started : List String

pub data Failure : Type 0 where
  of_journal : Err → Failure
  lane_full audit_unavailable invalid_event invalid_receipt no_id not_executed : Failure

abbrev pub failed_with : {A : Type 0} → Result Err A → Result Failure A
failed_with (ok a) = ok a
failed_with (err e) = err (of_journal e)

-- A call of the journal.
abbrev pub on_journal : {A : Type 0} → Exec Journal Err A → Exec World Failure A
on_journal m w = let (r, d) = m w.journal in (failed_with r, record w { journal = d })

-- The queues are on the same disk, and may fail as the journal's writes do.
unfoldable pub put_receipt : Receipt → Exec World Failure Unit
put_receipt x = do on_journal (quiet io); λ w. (ok tt, record w { receipts = x ∷ w.receipts })

unfoldable pub put_event : Event → Exec World Failure Unit
put_event e = do on_journal (quiet io); λ w. (ok tt, record w { audits = e ∷ w.audits })

abbrev pub job_of : Command → Job
job_of c = record { id = c.command_id; action = c.action }

abbrev pub has_room : Command → World → Bool
has_room c w = has_capacity (job_of c) w.dispatcher

-- A command that was sent is handed over; one that was active already is not sent again.
abbrev pub handed_over : Command → World → World
handed_over c w = record w {
  dispatcher = (submit (job_of c) w.dispatcher).1;
  started =
      if (submit (job_of c) w.dispatcher).0 && not (w.dispatcher.active c.command_id)
      then c.command_id ∷ w.started
      else w.started;
}

-- `if !s.dispatcher.submit(ctx, command)`
unfoldable pub hand_over : Command → Exec World Failure Unit
hand_over c w =
    if (submit (job_of c) w.dispatcher).0
    then (ok tt, handed_over c w)
    else (err lane_full, handed_over c w)
