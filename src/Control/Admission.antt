-- ===== src/Control/Admission.antt =====
-- The admission of one command by `PollOnce` of internal/control/service.go, and what a worker and a
-- recovery do to the journal. The executor, the checks of receipts and the poll are outside.
pub mod Steady
pub mod Starts
pub mod Claiming
pub mod Once
mod Tests
use ppflight_agent.Prelude.{
  ℕ, String, Bool, true, false, not, ◌&&◌, ◌||◌, Option, none, some, List, [], ◌∷◌, ◌=ˢ◌,
  if◌then◌else◌,
}
use ppflight_agent.Prelude.Exec.{Result, ok, err, Exec, ◌>>=◌, ◌>>◌, return, fail, branch}
use ppflight_agent.Control.Command.{Command, command_digest}
use ppflight_agent.Control.Actions.{requires_approval}
use ppflight_agent.Control.Verify.{verify}
use ppflight_agent.Control.Checks.{
  Reason, envelope_invalid, action_not_allowed, expired, authority_mismatch, scope_invalid,
  inventory_unavailable, identity_mismatch, parameters_invalid, approval_missing, VerifyError,
  body_hash_invalid, signing_key_mismatch, signature_invalid, denied, VerifyConfig, Primitives,
}
use ppflight_agent.Control.Codes.{verification_code, claim_code, is_denied}
use ppflight_agent.Control.World.{
  World, Failure, lane_full, audit_unavailable, invalid_event, invalid_receipt, no_id, not_executed,
  on_journal, put_receipt, put_event, has_room, hand_over,
}
use ppflight_agent.Journal.Types.{
  Phase, running, rejected, Receipt, AuditContext, Event, Outside, Err, command_conflict,
  operation_conflict, idempotency_conflict, resource_busy, refused,
}
use ppflight_agent.Journal.Audit.{apply_compatibility, event_of}
use ppflight_agent.Journal.Contexts.{new_audit_context}
use ppflight_agent.Journal.Scans.{Tools}
use ppflight_agent.Journal.Claim.{Claimed, execute, duplicate, claim}
use ppflight_agent.Journal.{
  begin_running, complete, mark_audit_queued, mark_receipt_queued, pending_audit_for_receipt,
}

-- The service, and what it calls that is not modelled: `Receipt.Validate`, and the executor that runs a
-- command at once outside production, with whether it failed without a receipt.
pub record Service : Type 0 where
  pub out : Outside
  pub tools : Tools
  pub primitives : Primitives
  pub config : VerifyConfig
  pub agent_version : String
  pub production_execution : Bool
  pub has_audit_sink : Bool
  pub is_valid_receipt : Receipt → Bool
  pub execute_now : Command → ℕ → Receipt × Bool

-- The clock, and what `protocol.NewID` returns where one admission asks for IDs.
pub record Moment : Type 0 where
  pub now : ℕ
  pub rejection_id : Option String
  pub claim_id : Option String
  pub running_id : Option String

module _ (s : Service) where
  abbrev pub is_production : Bool
  is_production = s.config.mode =ˢ "production" && s.production_execution

  abbrev pub plain_receipt : Command → ℕ → String → Phase → String → Receipt
  plain_receipt c now id state code = record {
    receipt_id = id;
    command_id = c.command_id;
    operation_id = c.operation_id;
    agent_ref = s.config.agent_ref;
    state = state;
    code = code;
    execution_mode = s.config.mode;
    dry_run = false;
    started_at = now;
    finished_at = now;
    pve_task_upid = "";
    agent_upgrade_id = "";
    accepted = false;
    asynchronous = false;
    mutation_may_have_succeeded = false;
    operator_ref = c.operator_ref;
    result = [];
    error = none;
  }

  -- `rejection`
  unfoldable pub rejection : Command → String → Moment → Exec World Failure Receipt
  rejection c code at = elim at.rejection_id [
    | none ↦ fail no_id
    | some id ↦
        return (record (plain_receipt c at.now id rejected code) { dry_run = not is_production })
  ]

  -- `runningReceipt`
  unfoldable pub running_receipt : Command → Moment → Exec World Failure Receipt
  running_receipt c at = elim at.running_id [
    | none ↦ fail no_id
    | some id ↦ return (record (plain_receipt c at.now id running "COMMAND_STARTED") {
      accepted = true;
      asynchronous = true;
    })
  ]

  -- `enqueue`
  unfoldable pub enqueue : Receipt → Exec World Failure Unit
  enqueue x =
      if s.is_valid_receipt (apply_compatibility x)
      then put_receipt (apply_compatibility x)
      else fail invalid_receipt

  unfoldable pub deliver_event : String → Event → Exec World Failure Unit
  deliver_event id e = do
    if s.has_audit_sink then put_event e else fail audit_unavailable
    on_journal (mark_audit_queued s.out id e.event_id)

  -- `enqueueJournaled`
  unfoldable pub enqueue_journaled : String → Receipt → Exec World Failure Unit
  enqueue_journaled id x = do
    event ← on_journal (pending_audit_for_receipt s.out id x.receipt_id)
    elim event [ none ↦ return tt | some e ↦ deliver_event id e ]
    enqueue x
    on_journal (mark_receipt_queued s.out id x.receipt_id)

  abbrev pub denied_event : Command → Receipt → ℕ → Option Event
  denied_event c x now = elim (new_audit_context s.out c now s.agent_version) [
    | none ↦ none
    | some context ↦ elim (event_of s.out context x) [
      | none ↦ none
      | some e ↦
          let e' = record e { accepted_at = none; started_at = none } in
          if s.out.is_valid_event e' then some e' else none
    ]
  ]

  -- `enqueueDeniedAudit`
  unfoldable pub enqueue_denied_audit : Command → Receipt → ℕ → Exec World Failure Unit
  enqueue_denied_audit c x now =
      if not s.has_audit_sink then fail audit_unavailable else elim (denied_event c x now) [
        | none ↦ fail invalid_event
        | some e ↦ do put_event e; enqueue x
      ]

  unfoldable pub reject : Command → String → Bool → Moment → Exec World Failure Unit
  reject c code audited at = do
    x ← rejection c code at
    if audited then enqueue_denied_audit c x at.now else enqueue x

  unfoldable pub reject_unverified : Command → VerifyError → Moment → Exec World Failure Unit
  reject_unverified c e at =
      let auditable = is_denied e && requires_approval c.action in
      if auditable && not s.has_audit_sink
      then reject c "AUDIT_UNAVAILABLE" false at
      else reject c (verification_code e) auditable at

  abbrev pub digest_of : Command → String
  digest_of c = command_digest s.tools.encoding c

  unfoldable pub deliver_final : Command → Receipt → Bool → Exec World Failure Unit
  deliver_final c x lost =
      if lost && x.receipt_id =ˢ "" then fail not_executed else enqueue_journaled c.command_id x

  abbrev pub named : Command → Receipt → Receipt
  named c x = apply_compatibility (record x { operation_id = c.operation_id })

  -- What follows the execution of a command, by a worker or at once.
  unfoldable pub settle : Command → Receipt × Bool → Exec World Failure Unit
  settle c (x, lost) = do
    on_journal (complete s.out c.command_id (digest_of c) (named c x))
    deliver_final c (named c x) lost

  unfoldable pub start : Command → Moment → Exec World Failure Unit
  start c at = do
    x ← running_receipt c at
    on_journal (begin_running s.out c.command_id (digest_of c) x)
    enqueue_journaled c.command_id x
    hand_over c

  -- What follows a claim that did not fail.
  unfoldable pub claimed : Command → Moment → Claimed → Exec World Failure Unit
  claimed c at (duplicate x) = enqueue_journaled c.command_id x
  claimed c at execute = if is_production then start c at else settle c (s.execute_now c at.now)

  abbrev pub is_audited : Command → Bool
  is_audited c = requires_approval c.action && s.has_audit_sink

  -- `ClaimWithAudit` or `Claim`, and the two ways on
  unfoldable pub claim_with : Command → Moment → Option AuditContext → Exec World Failure Unit
  claim_with c at audit w =
      let (r, d) = claim s.out s.tools c at.now at.claim_id audit w.journal in
      elim r [
        | ok a ↦ claimed c at a (record w { journal = d })
        | err e ↦ reject c (claim_code e) (is_audited c) at (record w { journal = d })
      ]

  unfoldable pub admit_claim : Command → Moment → Exec World Failure Unit
  admit_claim c at =
      if is_audited c
      then elim (new_audit_context s.out c at.now s.agent_version) [
        | none ↦ reject c "JOURNAL_UNAVAILABLE" true at
        | some context ↦ claim_with c at (some context)
      ]
      else claim_with c at none

  unfoldable pub admit_verified : Command → Moment → Exec World Failure Unit
  admit_verified c at =
      if requires_approval c.action && not s.has_audit_sink
      then reject c "AUDIT_UNAVAILABLE" false at
      else branch (λ w. is_production && not (has_room c w)) (fail lane_full) (admit_claim c at)

  -- The body of the loop of `PollOnce`.
  unfoldable pub admit : Command → Moment → Exec World Failure Unit
  admit c at = elim (verify s.primitives c (record s.config { now = at.now })) [
    | some e ↦ reject_unverified c e at
    | none ↦ admit_verified c at
  ]

  -- The loop of `PollOnce`, which ends at the first failure.
  unfoldable pub admit_all : List (Command × Moment) → Exec World Failure Unit
  admit_all [] = return tt
  admit_all ((c, at) ∷ rest) = do admit c at; admit_all rest
