-- ===== src/Journal/Tests.antt =====
-- One command that is completed, its event queued, and its receipt queued.
use ppflight_agent.Prelude.{◌≡◌, ◌≢◌, refl, true, false, none, some, [], ◌∷◌}
use ppflight_agent.Prelude.Exec.{ok}
use ppflight_agent.Prelude.Disk.{reliable, quiet, syscall, atomic_write}
use ppflight_agent.Journal.Types.{
  running, succeeded, Receipt, AuditContext, JournalRecord, Journal, Outside,
}
use ppflight_agent.Control.Command.{pos}
use ppflight_agent.Journal.Entries.{find_entry, put_entry}
use ppflight_agent.Journal.Audit.{
  event_of, apply_compatibility, is_accepted, is_progress, outcome_of, stage_of,
}
use ppflight_agent.Journal.Outbox.{Holds, Receipted, Cleared, mark_receipt_queued_lem}
use ppflight_agent.Journal.Completion.{Completes, complete_outboxed, audit_goes_first}
use ppflight_agent.Journal.{
  decode, read, write, is_audited, audited, complete, complete_checked, complete_record,
  mark_audit_queued, audit_record, mark_receipt_queued, receipt_record,
}

abbrev outside : Outside
outside = record {
  path = λ id. id;
  is_readable = λ r. true;
  is_valid_context = λ c. true;
  is_valid_event = λ e. true;
  hash = λ text. text;
  receipt_digest = λ r. some "digest";
  is_replayable = λ r x. false;
}

abbrev context : AuditContext
context = record {
  command_id = "command";
  idempotency_key = "key";
  operation_id = "operation";
  action = "vm.start";
  scope = "vm";
  target_ref = "vm:c1";
  target = none;
  signing_key_id = "signer";
  received_at = 1;
  accepted_at = 1;
  approval_ref = "approval";
  requested_by_ref = "operator";
  payload_digest = "sha256:0";
  agent_version = "1";
  assignment_revision = 3;
}

abbrev claimed : JournalRecord
claimed = record {
  command_id = "command";
  operation_id = "operation";
  idempotency_key = "key";
  agent_ref = "agent";
  binding_id = "binding";
  device_id = "device";
  credential_epoch = 1;
  assignment_revision = 3;
  operator_ref = "operator";
  scope = "vm";
  action = "vm.start";
  cluster_ref = "c1";
  service_ref = "service";
  instance_uuid = "vm-1";
  guest_type = "qemu";
  vmid = pos 107;
  generation = 1;
  source_config_sha256 = "";
  source_template_ref = "";
  source_vmid = pos 0;
  migrated_by_command_id = "";
  migrated_at = none;
  retired_by_command_id = "";
  retired_at = none;
  mutating = true;
  digest = "d";
  resource_key = "vm:c1:qemu:107:1";
  node_ref = "pve1";
  pve_task_upid = "";
  agent_upgrade_id = "";
  snippet_phase = "";
  snippet_storage_id = "";
  snippet_volume_sha256 = "";
  state = running;
  receipt_pending = false;
  created_at = 1;
  updated_at = 1;
  receipt = none;
  audit_context = some context;
  audit_pending = none;
}

abbrev receipt : Receipt
receipt = record {
  receipt_id = "receipt";
  command_id = "command";
  operation_id = "";
  agent_ref = "agent";
  state = succeeded;
  code = "SUCCEEDED";
  execution_mode = "production";
  dry_run = false;
  started_at = 1;
  finished_at = 2;
  pve_task_upid = "";
  agent_upgrade_id = "";
  accepted = false;
  asynchronous = false;
  mutation_may_have_succeeded = false;
  operator_ref = "operator";
  result = [];
  error = none;
}

abbrev journal : Journal
journal = reliable (("command", some claimed) ∷ [])

abbrev after_complete : Journal
after_complete = (complete outside "command" "d" receipt journal).1

abbrev after_audit : Journal
after_audit = (mark_audit_queued outside "command" "receipt" after_complete).1

claimed_held : Holds outside "command" claimed journal
unfolding find_entry
claimed_held = (refl, refl)

start_audited : is_audited claimed receipt ≡ true
unfolding is_audited
start_audited = refl

complete_computes : complete outside "command" "d" receipt journal ≡ (ok tt, after_complete)
unfolding complete complete_checked complete_record audited is_audited event_of apply_compatibility
    is_accepted is_progress outcome_of stage_of read decode write find_entry put_entry quiet syscall
    atomic_write
complete_computes = refl

mark_computes :
    mark_receipt_queued outside "command" "receipt" after_audit
    ≡ (ok tt, (mark_receipt_queued outside "command" "receipt" after_audit).1)
unfolding mark_receipt_queued receipt_record mark_audit_queued audit_record complete
    complete_checked complete_record audited is_audited event_of apply_compatibility is_accepted
    is_progress outcome_of stage_of read decode write find_entry put_entry quiet syscall
    atomic_write
mark_computes = refl

complete_outboxed_example : Completes outside "command" "d" receipt journal after_complete
complete_outboxed_example =
    complete_outboxed outside "command" "d" receipt journal after_complete complete_computes

mark_receipt_queued_lem_example :
    (r : JournalRecord) × Holds outside "command" r after_audit
    × Receipted outside "receipt" r
    × Cleared outside "command" r after_audit
        (mark_receipt_queued outside "command" "receipt" after_audit).1
mark_receipt_queued_lem_example =
    mark_receipt_queued_lem outside "command" "receipt" after_audit
      (mark_receipt_queued outside "command" "receipt" after_audit).1 mark_computes

audit_goes_first_example :
    mark_receipt_queued outside "command" "receipt" after_complete ≢ (ok tt, after_complete)
audit_goes_first_example =
    audit_goes_first outside "command" "d" receipt "receipt" claimed context journal after_complete
      after_complete claimed_held refl start_audited complete_computes
