-- ===== src/Journal/Types.antt =====
-- The data of internal/control/journal.go, and the receipts of internal/control/types.go. Times are
-- nanoseconds, 0 for the zero time.
use ppflight_agent.Prelude.{ℕ, String, Bool, Option, List}
use ppflight_agent.Prelude.Disk.{Disk}
use ppflight_agent.Control.Command.{ℤ}

-- The texts of the states of records and receipts.
pub data Phase : Type 0 where
  received running submitted waiting succeeded failed indeterminate rejected unknown : Phase

pub record ExecutionError : Type 0 where
  pub source : String
  pub stage : String
  pub method : String
  pub path : String
  pub http_status : ℕ
  pub reason : String

pub record Receipt : Type 0 where
  pub receipt_id : String
  pub command_id : String
  pub operation_id : String
  pub agent_ref : String
  pub state : Phase
  pub code : String
  pub execution_mode : String
  pub dry_run : Bool
  pub started_at : ℕ
  pub finished_at : ℕ
  pub pve_task_upid : String
  pub agent_upgrade_id : String
  pub accepted : Bool
  pub asynchronous : Bool
  pub mutation_may_have_succeeded : Bool
  pub operator_ref : String
  pub result : List ℕ
  pub error : Option ExecutionError

pub record EventTarget : Type 0 where
  pub cluster_ref : String
  pub node_ref : String
  pub guest_type : String
  pub vmid : ℤ

pub record AuditContext : Type 0 where
  pub command_id : String
  pub idempotency_key : String
  pub operation_id : String
  pub action : String
  pub scope : String
  pub target_ref : String
  pub target : Option EventTarget
  pub signing_key_id : String
  pub received_at : ℕ
  pub accepted_at : ℕ
  pub approval_ref : String
  pub requested_by_ref : String
  pub payload_digest : String
  pub agent_version : String
  pub assignment_revision : ℕ

pub data Outcome : Type 0 where
  as_state : Phase → Outcome
  rolled_back : Outcome

pub data Stage : Type 0 where
  no_stage policy execution receipt_stage : Stage

pub record Event : Type 0 where
  pub event_id : String
  pub context : AuditContext
  pub accepted_at : Option ℕ
  pub started_at : Option ℕ
  pub finished_at : Option ℕ
  pub outcome : Outcome
  pub error_code : String
  pub upid_digest : String
  pub result_digest : String
  pub is_denied : Bool
  pub failure_stage : Stage
  pub error : Option ExecutionError

-- Without the version, which is one number.
pub record JournalRecord : Type 0 where
  pub command_id : String
  pub operation_id : String
  pub idempotency_key : String
  pub agent_ref : String
  pub binding_id : String
  pub device_id : String
  pub credential_epoch : ℕ
  pub assignment_revision : ℕ
  pub operator_ref : String
  pub scope : String
  pub action : String
  pub cluster_ref : String
  pub service_ref : String
  pub instance_uuid : String
  pub guest_type : String
  pub vmid : ℤ
  pub generation : ℕ
  pub source_config_sha256 : String
  pub source_template_ref : String
  pub source_vmid : ℤ
  pub migrated_by_command_id : String
  pub migrated_at : Option ℕ
  pub retired_by_command_id : String
  pub retired_at : Option ℕ
  pub mutating : Bool
  pub digest : String
  pub resource_key : String
  pub node_ref : String
  pub pve_task_upid : String
  pub agent_upgrade_id : String
  pub snippet_phase : String
  pub snippet_storage_id : String
  pub snippet_volume_sha256 : String
  pub state : Phase
  pub receipt_pending : Bool
  pub created_at : ℕ
  pub updated_at : ℕ
  pub receipt : Option Receipt
  pub audit_context : Option AuditContext
  pub audit_pending : Option Event

-- The files of the journal, by name; what does not decode is none.
abbrev pub Entries : Type 0
Entries = List (String × Option JournalRecord)

abbrev pub Journal : Type 0
Journal = Disk Entries

-- What is left outside: the hash that names a file, the checks of `readJournal` on a decoded record,
-- the digests, the check of an event, and which results a record may keep for a replay.
pub record Outside : Type 0 where
  pub path : String → String
  pub is_readable : JournalRecord → Bool
  pub is_valid_context : AuditContext → Bool
  pub is_valid_event : Event → Bool
  pub hash : String → String
  pub receipt_digest : Receipt → Option String
  pub is_replayable : JournalRecord → Receipt → Bool

pub data Err : Type 0 where
  io not_exist corrupt command_conflict mismatch audit_first invalid_audit : Err
  operation_conflict idempotency_conflict resource_busy : Err
  resource_invalid digest_invalid identity_invalid lineage_invalid id_unavailable : Err
  refused : String → Err
