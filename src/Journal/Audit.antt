-- ===== src/Journal/Audit.antt =====
-- `ApplyReceiptCompatibility` of internal/control/types.go, and `auditEventFromReceipt` of
-- internal/control/journal.go.
use ppflight_agent.Prelude.{
  ℕ, String, Bool, true, false, not, ◌&&◌, ◌||◌, Option, none, some, ◌==◌, ◌=ˢ◌, if◌then◌else◌,
}
use ppflight_agent.Journal.Types.{
  Phase, received, running, submitted, waiting, succeeded, failed, indeterminate, rejected, unknown,
  Receipt, AuditContext, Outcome, as_state, rolled_back, Stage, no_stage, policy, execution,
  receipt_stage, Event, Outside,
}

abbrev pub is_indeterminate : Phase → Bool
is_indeterminate indeterminate = true
is_indeterminate _ = false

abbrev pub is_rejected : Phase → Bool
is_rejected rejected = true
is_rejected _ = false

abbrev pub is_failed : Phase → Bool
is_failed failed = true
is_failed _ = false

abbrev pub has_task : Receipt → Bool
has_task r = not (r.pve_task_upid =ˢ "") || not (r.agent_upgrade_id =ˢ "")

unfoldable pub is_accepted : Phase → Bool → Bool
is_accepted running task = true
is_accepted submitted task = true
is_accepted waiting task = true
is_accepted succeeded task = true
is_accepted failed task = task
is_accepted _ task = false

unfoldable pub is_progress : Phase → Bool
is_progress running = true
is_progress submitted = true
is_progress waiting = true
is_progress _ = false

-- `ApplyReceiptCompatibility`
unfoldable pub apply_compatibility : Receipt → Receipt
unfolding is_accepted is_progress
apply_compatibility r =
    let accepted = is_accepted r.state (has_task r) in
    record r {
      accepted = accepted;
      asynchronous = is_progress r.state || (has_task r && accepted);
      mutation_may_have_succeeded = is_indeterminate r.state;
    }

unfoldable pub outcome_of : Bool → Receipt → Outcome
outcome_of false r = as_state r.state
outcome_of true r = elim r.state [
  | waiting ↦ as_state submitted
  | failed ↦ if r.code =ˢ "AGENT_UPGRADE_ROLLED_BACK" then rolled_back else as_state failed
  | received ↦ as_state received
  | running ↦ as_state running
  | submitted ↦ as_state submitted
  | succeeded ↦ as_state succeeded
  | indeterminate ↦ as_state indeterminate
  | rejected ↦ as_state rejected
  | unknown ↦ as_state unknown
]

abbrev is_rolled_back : Outcome → Bool
is_rolled_back rolled_back = true
is_rolled_back (as_state s) = false

unfoldable pub stage_of : Phase → Outcome → Stage
stage_of state outcome =
    if is_rejected state
    then policy
    else if is_failed state || is_rolled_back outcome
    then execution
    else if is_indeterminate state
    then receipt_stage
    else no_stage

abbrev pub time_of : ℕ → Option ℕ
time_of t = if t == 0 then none else some t

abbrev pub assembled : Outside → AuditContext → Receipt → String → Event
assembled out c r digest =
    let outcome = outcome_of (c.action =ˢ "agent.upgrade") r in
    record {
      event_id = r.receipt_id;
      context = c;
      accepted_at = some c.accepted_at;
      started_at = time_of r.started_at;
      finished_at = time_of r.finished_at;
      outcome = outcome;
      error_code = r.code;
      upid_digest = if r.pve_task_upid =ˢ "" then "" else out.hash r.pve_task_upid;
      result_digest = digest;
      is_denied = is_rejected r.state;
      failure_stage = stage_of r.state outcome;
      error = r.error;
    }

-- `auditEventFromReceipt`
unfoldable pub event_of : Outside → AuditContext → Receipt → Option Event
event_of out c r = if not (out.is_valid_context c) then none else elim (out.receipt_digest r) [
  | none ↦ none
  | some digest ↦
      if out.is_valid_event (assembled out c r digest)
      then some (assembled out c r digest)
      else none
]
