-- ===== src/Journal/Records.antt =====
-- The records and receipts that `claim` of internal/control/journal.go builds.
use ppflight_agent.Prelude.{ℕ, String, false, Option, none, []}
use ppflight_agent.Control.Command.{ℤ, Command}
use ppflight_agent.Control.Actions.{requires_approval}
use ppflight_agent.Journal.Types.{received, indeterminate, Receipt, AuditContext, JournalRecord}
use ppflight_agent.Journal.Audit.{apply_compatibility}

-- Of a `vm.clone` or `vm.set-initial-resources`, the template that the parameters name.
pub record Lineage : Type 0 where
  pub config_sha256 : String
  pub template_ref : String
  pub vmid : ℤ

-- The record that a first claim writes, without a lineage.
abbrev pub new_record :
    Command → ℕ → Option AuditContext → String → String → Lineage → JournalRecord
new_record c now audit key digest lineage = record {
  command_id = c.command_id;
  operation_id = c.operation_id;
  idempotency_key = c.idempotency_key;
  agent_ref = c.agent_ref;
  binding_id = c.binding_id;
  device_id = c.device_id;
  credential_epoch = c.credential_epoch;
  assignment_revision = c.assignment_revision;
  operator_ref = c.operator_ref;
  scope = c.scope;
  action = c.action;
  cluster_ref = c.identity.cluster_ref;
  service_ref = c.identity.service_ref;
  instance_uuid = c.identity.instance_uuid;
  guest_type = c.identity.guest_type;
  vmid = c.identity.vmid;
  generation = c.identity.generation;
  source_config_sha256 = lineage.config_sha256;
  source_template_ref = lineage.template_ref;
  source_vmid = lineage.vmid;
  migrated_by_command_id = "";
  migrated_at = none;
  retired_by_command_id = "";
  retired_at = none;
  mutating = requires_approval c.action;
  digest = digest;
  resource_key = key;
  node_ref = c.identity.node_ref;
  pve_task_upid = "";
  agent_upgrade_id = "";
  snippet_phase = "";
  snippet_storage_id = "";
  snippet_volume_sha256 = "";
  state = received;
  receipt_pending = false;
  created_at = now;
  updated_at = now;
  receipt = none;
  audit_context = audit;
  audit_pending = none;
}

-- `journalIndeterminate`
unfoldable pub indeterminate_receipt : Command → ℕ → String → Receipt
indeterminate_receipt c now id = apply_compatibility (record {
  receipt_id = id;
  command_id = c.command_id;
  operation_id = c.operation_id;
  agent_ref = c.agent_ref;
  state = indeterminate;
  code = "EXECUTION_INDETERMINATE";
  execution_mode = "production";
  dry_run = false;
  started_at = now;
  finished_at = now;
  pve_task_upid = "";
  agent_upgrade_id = "";
  accepted = false;
  asynchronous = false;
  mutation_may_have_succeeded = false;
  operator_ref = c.operator_ref;
  result = [];
  error = none;
})
