-- ===== src/Control/Admission/Tests.antt =====
-- One command that is admitted, redelivered, and redelivered again after a restart.
use ppflight_agent.Prelude.{◌⊎◌, ◌≡◌, refl, true, false, none, some, [], ◌∷◌}
use ppflight_agent.Prelude.Text.{
  is_uuid, class_run, dash, at_end, is_command_id, is_node_ref, initial_then, class_upto,
  is_body_hash, is_action_name, place_from, all_space, is_space, decimal_from, concat,
}
use ppflight_agent.Prelude.Exec.{ok}
use ppflight_agent.Prelude.Disk.{reliable, quiet, syscall, atomic_write}
use ppflight_agent.Uploader.Response.{same_text, trim, trim_left}
use ppflight_agent.Control.Command.{canonical_command_body, command_digest}
use ppflight_agent.Control.Actions.{find_action, spec_of, resource_key}
use ppflight_agent.Control.Verify.{
  verify_ed25519, verify_signature, bad_envelope, bad_authority, bad_timing, verify_authority,
  verify_scope, policy, verify,
}
use ppflight_agent.Control.Checks.{lookup}
use ppflight_agent.Control.Verify.Tests.{command, primitives, config, encoding}
use ppflight_agent.Control.Dispatcher.{initial, lane_for, send, submit, has_capacity}
use ppflight_agent.Control.World.{World, put_receipt, put_event, hand_over}
use ppflight_agent.Control.Admission.{
  Service, Moment, rejection, running_receipt, enqueue, deliver_event, enqueue_journaled, reject,
  reject_unverified, start, claimed, claim_with, admit_claim, admit_verified, admit,
}
use ppflight_agent.Control.Admission.Starts.{IsOnce}
use ppflight_agent.Control.Admission.Once.{admitted, restarted, Reach, begin, change, Reach-IsOnce}
use ppflight_agent.Journal.Types.{succeeded, Outside, Journal}
use ppflight_agent.Journal.Exclusion.{IsRepeat, claim-execute}
use ppflight_agent.Journal.Firsts.{IsFirst}
use ppflight_agent.Journal.Claim.{execute}
use ppflight_agent.Journal.Entries.{find_entry, put_entry}
use ppflight_agent.Journal.Audit.{
  event_of, apply_compatibility, is_accepted, is_progress, outcome_of, stage_of,
}
use ppflight_agent.Journal.Contexts.{is_audit_text, audit_target_ref, new_audit_context}
use ppflight_agent.Journal.Scans.{
  Tools, scan, scan_identity, identity_used, holds_unretired, resource_busy_locked,
}
use ppflight_agent.Journal.Claim.{
  take_resource, lineage_of, claim_new, backfill, settle, claim_same, claim_existing, claim_read,
  claim,
}
use ppflight_agent.Journal.{
  decode, read, write, begin_record, begin_checked, begin_running, pending_event,
  pending_audit_for_receipt, receipt_record, mark_receipt_queued, mark_audit_queued,
}

abbrev outside : Outside
outside = record {
  path = λ id. id;
  is_readable = λ r. true;
  is_valid_context = λ c. true;
  is_valid_event = λ e. true;
  hash = λ text. text;
  receipt_digest = λ r. some "digest";
  is_replayable = λ r x. false;
}

abbrev tools : Tools
tools = record {
  encoding = encoding;
  list_directory = λ es. es;
  lineage = λ c. none;
  retirement_committed = λ es r. ok false;
  migration_refused = λ es c. none;
}

abbrev service : Service
service = record {
  out = outside;
  tools = tools;
  primitives = primitives;
  config = config;
  agent_version = "1";
  production_execution = true;
  has_audit_sink = true;
  is_valid_receipt = λ x. true;
  execute_now = λ c now. (
    record {
      receipt_id = "";
      command_id = c.command_id;
      operation_id = "";
      agent_ref = "agent";
      state = succeeded;
      code = "";
      execution_mode = "test";
      dry_run = true;
      started_at = now;
      finished_at = now;
      pve_task_upid = "";
      agent_upgrade_id = "";
      accepted = false;
      asynchronous = false;
      mutation_may_have_succeeded = false;
      operator_ref = "";
      result = [];
      error = none;
    },
    true,
  );
}

abbrev moment : Moment
moment = record {
  now = 1500;
  rejection_id = some "r1";
  claim_id = some "r2";
  running_id = some "r3";
}

abbrev idle : World
idle = record {
  journal = reliable [];
  dispatcher = initial;
  receipts = [];
  audits = [];
  started = [];
}

abbrev after_one : World
after_one = (admit service command moment idle).1

abbrev after_two : World
after_two = (admit service command moment (record after_one { dispatcher = initial })).1

redelivered : Reach service after_two
redelivered =
    change (change (change (begin idle refl) (admitted command moment)) restarted)
      (admitted command moment)

Reach-IsOnce_example : IsOnce outside after_two
Reach-IsOnce_example = Reach-IsOnce service redelivered

starts_once : after_two.started ≡ "command" ∷ []
unfolding admit admit_verified admit_claim claim_with claimed start hand_over enqueue
    enqueue_journaled deliver_event running_receipt rejection reject reject_unverified put_receipt
    put_event verify policy verify_signature verify_ed25519 verify_scope verify_authority bad_timing
    bad_authority bad_envelope lookup is_uuid class_run dash at_end is_command_id is_node_ref
    initial_then class_upto is_body_hash is_action_name place_from all_space is_space decimal_from
    concat canonical_command_body command_digest find_action spec_of resource_key lane_for send
    submit has_capacity new_audit_context audit_target_ref is_audit_text trim trim_left same_text
    claim claim_read claim_new claim_existing claim_same backfill settle take_resource lineage_of
    identity_used scan_identity scan holds_unretired resource_busy_locked begin_running
    begin_checked begin_record pending_audit_for_receipt pending_event receipt_record
    mark_receipt_queued mark_audit_queued read write decode find_entry put_entry quiet syscall
    atomic_write event_of apply_compatibility is_accepted is_progress outcome_of stage_of
starts_once = refl

abbrev once_claimed : Journal
once_claimed = (claim outside tools command 1500 (some "r2") none (reliable [])).1

claims :
    claim outside tools command 1500 (some "r2") none (reliable []) ≡ (ok execute, once_claimed)
unfolding admit admit_verified admit_claim claim_with claimed start hand_over enqueue
    enqueue_journaled deliver_event running_receipt rejection reject reject_unverified put_receipt
    put_event verify policy verify_signature verify_ed25519 verify_scope verify_authority bad_timing
    bad_authority bad_envelope lookup is_uuid class_run dash at_end is_command_id is_node_ref
    initial_then class_upto is_body_hash is_action_name place_from all_space is_space decimal_from
    concat canonical_command_body command_digest find_action spec_of resource_key lane_for send
    submit has_capacity new_audit_context audit_target_ref is_audit_text trim trim_left same_text
    claim claim_read claim_new claim_existing claim_same backfill settle take_resource lineage_of
    identity_used scan_identity scan holds_unretired resource_busy_locked begin_running
    begin_checked begin_record pending_audit_for_receipt pending_event receipt_record
    mark_receipt_queued mark_audit_queued read write decode find_entry put_entry quiet syscall
    atomic_write event_of apply_compatibility is_accepted is_progress outcome_of stage_of
claims = refl

claim-execute_example :
    IsFirst outside tools command [] once_claimed.files
    ⊎ IsRepeat outside tools command (reliable [])
claim-execute_example =
    claim-execute outside tools command 1500 (some "r2") none (reliable []) once_claimed claims
