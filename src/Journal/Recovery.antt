-- ===== src/Journal/Recovery.antt =====
-- `RecoverIncomplete` and `RecoverIncompleteExcept` of internal/control/journal.go: commands that a
-- restart has interrupted get a final receipt.
use ppflight_agent.Prelude.{
  ℕ, String, Bool, true, false, not, ◌&&◌, ◌||◌, Option, none, some, List, [], ◌∷◌, ◌=ˢ◌,
  if◌then◌else◌,
}
use ppflight_agent.Prelude.Exec.{Exec, ◌>>=◌, ◌>>◌, return, fail}
use ppflight_agent.Prelude.Disk.{quiet, atomic_write}
use ppflight_agent.Journal.Types.{
  Phase, received, failed, indeterminate, ExecutionError, Receipt, JournalRecord, Entries, Journal,
  Outside, Err, io, invalid_audit, id_unavailable,
}
use ppflight_agent.Journal.Entries.{put_entry}
use ppflight_agent.Journal.Audit.{apply_compatibility, event_of}
use ppflight_agent.Journal.Scans.{Tools, list_files}
use ppflight_agent.Journal.{decode, is_running}

-- One recovery: the clock, the mode, the commands of this process, and the texts of errors and results
-- that other packages make.
pub record Restart : Type 0 where
  pub now : ℕ
  pub mode : String
  pub active : String → Bool
  pub execution_error : String → ExecutionError
  pub not_ready : ℕ → List ℕ

abbrev pub is_received : Phase → Bool
is_received received = true
is_received _ = false

abbrev pub has_running : Option Receipt → Bool
has_running none = false
has_running (some x) = is_running x.state

abbrev pub has_none : Option Receipt → Bool
has_none none = true
has_none (some x) = false

-- The records that a recovery changes.
unfoldable pub is_interrupted : Restart → JournalRecord → Bool
is_interrupted now r =
    ((is_received r.state && has_none r.receipt) || (is_running r.state && has_running r.receipt))
    && not (r.action =ˢ "vm.cloud-init-snippet.delete")
    && not (now.active r.command_id)
    && (r.mutating || is_running r.state)

abbrev pub handoff_error : ExecutionError
handoff_error = record {
  source = "agent";
  stage = "upgrade_handoff";
  method = "";
  path = "";
  http_status = 0;
  reason = "agent restarted before the upgrade handoff was durably submitted";
}

-- The receipt before its additional fields.
abbrev pub unknown_outcome : Restart → JournalRecord → String → Receipt
unknown_outcome at r id = record {
  receipt_id = id;
  command_id = r.command_id;
  operation_id = r.operation_id;
  agent_ref = r.agent_ref;
  state = indeterminate;
  code = "EXECUTION_INDETERMINATE";
  execution_mode = at.mode;
  dry_run = false;
  started_at = r.created_at;
  finished_at = at.now;
  pve_task_upid = "";
  agent_upgrade_id = "";
  accepted = false;
  asynchronous = false;
  mutation_may_have_succeeded = false;
  operator_ref = r.operator_ref;
  result = [];
  error = none;
}

-- An upgrade that was not handed over, and a command that only reads, have failed; what another
-- mutation did is unknown.
unfoldable pub final_receipt : Restart → JournalRecord → String → Receipt
final_receipt at r id =
    let x = unknown_outcome at r id in
    if r.action =ˢ "agent.upgrade" && is_running r.state && r.agent_upgrade_id =ˢ ""
    then record x { state = failed; code = "UPGRADE_PREPARE_FAILED"; error = some handoff_error }
    else if not r.mutating
    then if r.action =ˢ "vm.verify-delivery"
      then record x {
        state = failed;
        code = "DELIVERY_NOT_READY";
        error = some (at.execution_error r.action);
        result = at.not_ready at.now;
      }
      else record x {
        state = failed;
        code = "AGENT_EXECUTION_INTERRUPTED";
        error = some (at.execution_error r.action);
      }
    else x

abbrev pub closed : Restart → JournalRecord → Receipt → JournalRecord
closed at r x = record r {
  state = x.state;
  updated_at = at.now;
  receipt = some x;
  receipt_pending = true;
}

module _ (out : Outside) (tools : Tools) (at : Restart) where
  -- `writeJournal(filename, record)`
  unfoldable pub write_file : String → JournalRecord → Exec Journal Err Unit
  write_file name r = atomic_write io (put_entry name r)

  unfoldable pub publish_file : String → JournalRecord → Receipt → Exec Journal Err Unit
  publish_file name r x = elim r.audit_context [
    | none ↦ write_file name r
    | some context ↦ elim (event_of out context x) [
      | none ↦ fail invalid_audit
      | some e ↦ write_file name (record r { audit_pending = some e })
    ]
  ]

  unfoldable pub close_file : String → JournalRecord → String → Exec Journal Err Receipt
  close_file name r id =
      let x = apply_compatibility (final_receipt at r id) in
      do publish_file name (closed at r x) x; return x

  abbrev pub read_file : Option JournalRecord → Exec Journal Err JournalRecord
  read_file content = do quiet io; λ d. (decode out (some content), d)

  -- The receipts of a file and of those after it; the IDs are what `protocol.NewID` returns.
  unfoldable pub recover_files : Entries → List String → Exec Journal Err (List Receipt)
  recover_files [] ids = return []
  recover_files ((name, content) ∷ rest) ids = do
    r ← read_file content
    if not (is_interrupted at r) then recover_files rest ids else elim ids [
      | [] ↦ fail id_unavailable
      | id ∷ others ↦ do x ← close_file name r id; xs ← recover_files rest others; return (x ∷ xs)
    ]

  -- `recoverIncomplete`
  unfoldable pub recover_incomplete : List String → Exec Journal Err (List Receipt)
  recover_incomplete ids = do files ← list_files out tools; recover_files files ids
