-- ===== src/Journal.antt =====
-- internal/control/journal.go: the receipt and audit outboxes of the control journal. Each command
-- has one file, behind the failing calls of `Prelude.Disk`; the digest of a command is an argument.
pub mod Types
pub mod Entries
pub mod Audit
pub mod Outbox
pub mod Projection
pub mod Completion
pub mod Contexts
pub mod Records
pub mod Scans
pub mod Claim
pub mod Locks
pub mod Firsts
pub mod Exclusion
pub mod Recovery
pub mod Receipts
mod Tests
use ppflight_agent.Prelude.{
  ℕ, String, Bool, true, false, not, ◌&&◌, ◌||◌, Option, none, some, List, [], ◌∷◌, ◌=ˢ◌,
  if◌then◌else◌,
}
use ppflight_agent.Prelude.Exec.{Result, ok, err, Exec, ◌>>=◌, ◌>>◌}
use ppflight_agent.Prelude.Disk.{Disk, quiet, atomic_write}
use ppflight_agent.Journal.Types.{
  Phase, received, running, submitted, waiting, succeeded, Receipt, AuditContext, Event,
  JournalRecord, Journal, Outside, Err, io, not_exist, corrupt, command_conflict, mismatch,
  audit_first, invalid_audit,
}
use ppflight_agent.Journal.Entries.{find_entry, put_entry}
use ppflight_agent.Journal.Audit.{apply_compatibility, event_of}

abbrev pub is_running : Phase → Bool
is_running running = true
is_running _ = false

abbrev pub is_submitted : Phase → Bool
is_submitted submitted = true
is_submitted _ = false

abbrev pub is_waiting : Phase → Bool
is_waiting waiting = true
is_waiting _ = false

abbrev pub is_succeeded : Phase → Bool
is_succeeded succeeded = true
is_succeeded _ = false

abbrev pub is_some : {A : Type 0} → Option A → Bool
is_some none = false
is_some (some a) = true

-- `shouldQueueReceiptAudit`
unfoldable pub is_audited : JournalRecord → Receipt → Bool
is_audited record' receipt =
    not (record'.action =ˢ "agent.upgrade") || not (is_waiting receipt.state)

-- A receipt that names no operation has the record's.
abbrev pub with_operation : JournalRecord → Receipt → Receipt
with_operation r receipt = apply_compatibility (record receipt {
  operation_id = if receipt.operation_id =ˢ "" then r.operation_id else receipt.operation_id;
})

abbrev pub unless_empty : String → String → String
unless_empty new old = if new =ˢ "" then old else new

module _ (out : Outside) where
  -- The decoded content of a file, by `readJournal`.
  unfoldable pub decode : Option (Option JournalRecord) → Result Err JournalRecord
  decode none = err not_exist
  decode (some none) = err corrupt
  decode (some (some r)) = if out.is_readable r then ok r else err corrupt

  -- `readJournal(j.path(commandID))`
  unfoldable pub read : String → Exec Journal Err JournalRecord
  read id = do quiet io; λ d. (decode (find_entry (out.path id) d.files), d)

  -- `writeJournal(j.path(commandID), record)`
  unfoldable pub write : String → JournalRecord → Exec Journal Err Unit
  write id r = atomic_write io (put_entry (out.path id) r)

  -- The record that `BeginRunning` writes.
  abbrev pub begun : JournalRecord → Receipt → JournalRecord
  begun r receipt = record r {
    state = running;
    updated_at = receipt.finished_at;
    receipt = some (with_operation r receipt);
    receipt_pending = true;
  }

  unfoldable pub begin_record :
      String → Receipt → JournalRecord → Option Receipt → Exec Journal Err Unit
  begin_record id receipt r (some old) d =
      if is_running r.state && is_running old.state then (ok tt, d) else (err command_conflict, d)
  begin_record id receipt r none d =
      if not (receipt.command_id =ˢ r.command_id)
      then (err mismatch, d)
      else write id (begun r receipt) d

  unfoldable pub begin_checked : String → String → Receipt → JournalRecord → Exec Journal Err Unit
  begin_checked id digest receipt r d =
      if not (r.digest =ˢ digest)
      then (err command_conflict, d)
      else begin_record id receipt r r.receipt d

  -- `BeginRunning`, of a command by its identifier and digest
  unfoldable pub begin_running : String → String → Receipt → Exec Journal Err Unit
  begin_running id digest receipt = do r ← read id; begin_checked id digest receipt r

  -- A receipt as the journal keeps it: its result only if it may be replayed.
  abbrev pub keeps_result : JournalRecord → Receipt → Bool
  keeps_result r receipt =
      is_succeeded receipt.state && receipt.code =ˢ "SUCCEEDED" && out.is_replayable r receipt

  abbrev pub kept : JournalRecord → Receipt → Receipt
  kept r receipt = if keeps_result r receipt then receipt else record receipt { result = [] }

  -- The record that `completeLocked` writes, before its audit event.
  abbrev pub completed : JournalRecord → Receipt → JournalRecord
  completed r receipt = record r {
    state = receipt.state;
    updated_at = receipt.finished_at;
    receipt = some (kept r receipt);
    receipt_pending = true;
    snippet_phase =
        if r.action =ˢ "vm.cloud-init-snippet.delete" && keeps_result r receipt
        then "succeeded"
        else r.snippet_phase;
    pve_task_upid = unless_empty receipt.pve_task_upid r.pve_task_upid;
    agent_upgrade_id = unless_empty receipt.agent_upgrade_id r.agent_upgrade_id;
  }

  -- The audit event that goes with the receipt, where one does.
  unfoldable pub audited : JournalRecord → Receipt → Option AuditContext → Result Err JournalRecord
  audited r receipt none = ok r
  audited r receipt (some c) =
      if is_audited r receipt
      then elim (event_of out c receipt) [
        | none ↦ err invalid_audit
        | some e ↦ ok (record r { audit_pending = some e })
      ]
      else ok r

  abbrev pub write_result : String → Result Err JournalRecord → Exec Journal Err Unit
  write_result id (err e) d = (err e, d)
  write_result id (ok r) d = write id r d

  -- `completeLocked`
  unfoldable pub complete_record : String → Receipt → JournalRecord → Exec Journal Err Unit
  complete_record id receipt r d =
      if not (receipt.command_id =ˢ r.command_id)
      then (err mismatch, d)
      else let full = with_operation r receipt in
        write_result id (audited (completed r full) full r.audit_context) d

  unfoldable pub complete_checked :
      String → String → Receipt → JournalRecord → Exec Journal Err Unit
  complete_checked id digest receipt r d =
      if not (r.digest =ˢ digest) then (err command_conflict, d) else complete_record id receipt r d

  -- `Complete`
  unfoldable pub complete : String → String → Receipt → Exec Journal Err Unit
  complete id digest receipt = do r ← read id; complete_checked id digest receipt r

  -- `AuthorizeUpgrade`
  unfoldable pub authorize_record :
      String → String → JournalRecord → Option Receipt → Result Err Unit
  authorize_record digest upgrade_id r none = err command_conflict
  authorize_record digest upgrade_id r (some receipt) =
      if r.digest =ˢ digest
        && r.agent_upgrade_id =ˢ upgrade_id
        && receipt.agent_upgrade_id =ˢ upgrade_id
        && is_submitted r.state
      then ok tt
      else err command_conflict

  unfoldable pub authorize_upgrade : String → String → String → Exec Journal Err Unit
  authorize_upgrade id digest upgrade_id = do
    r ← read id
    λ d. (authorize_record digest upgrade_id r r.receipt, d)

  unfoldable pub audit_record :
      String → String → JournalRecord → Option Event → Option Receipt → Exec Journal Err Unit
  audit_record id event_id r none receipt d = (ok tt, d)
  audit_record id event_id r (some e) none d = (err mismatch, d)
  audit_record id event_id r (some e) (some receipt) d =
      if receipt.receipt_id =ˢ event_id && e.event_id =ˢ event_id
      then write id (record r { audit_pending = none }) d
      else (err mismatch, d)

  -- `MarkAuditQueued`
  unfoldable pub mark_audit_queued : String → String → Exec Journal Err Unit
  mark_audit_queued id event_id = do
    r ← read id
    audit_record id event_id r r.audit_pending r.receipt

  unfoldable pub receipt_record :
      String → String → JournalRecord → Option Receipt → Exec Journal Err Unit
  receipt_record id receipt_id r none d = (err mismatch, d)
  receipt_record id receipt_id r (some receipt) d =
      if not (receipt.receipt_id =ˢ receipt_id)
      then (err mismatch, d)
      else if is_some r.audit_pending
      then (err audit_first, d)
      else if not r.receipt_pending
      then (ok tt, d)
      else write id (record r { receipt_pending = false }) d

  -- `MarkReceiptQueued`
  unfoldable pub mark_receipt_queued : String → String → Exec Journal Err Unit
  mark_receipt_queued id receipt_id = do r ← read id; receipt_record id receipt_id r r.receipt

  unfoldable pub pending_event : String → Option Receipt → Option Event → Result Err (Option Event)
  pending_event receipt_id none e = err mismatch
  pending_event receipt_id (some receipt) e =
      if not (receipt.receipt_id =ˢ receipt_id) then err mismatch else elim e [
        | none ↦ ok none
        | some event ↦ if event.event_id =ˢ receipt_id then ok (some event) else err mismatch
      ]

  -- `PendingAuditForReceipt`
  unfoldable pub pending_audit_for_receipt : String → String → Exec Journal Err (Option Event)
  pending_audit_for_receipt id receipt_id = do
    r ← read id
    λ d. (pending_event receipt_id r.receipt r.audit_pending, d)
