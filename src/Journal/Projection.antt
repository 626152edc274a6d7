-- ===== src/Journal/Projection.antt =====
-- What the receipt in the journal and the audit event take from a completed receipt, written
-- independently of the code that assembles them in internal/control/types.go and
-- internal/control/journal.go.
use mathlib.Core.Path.{subst}
use ppflight_agent.Prelude.{
  ℕ, String, ◌≡◌, ◌≢◌, refl, ap, ◌∙◌, Bool, true, false, not, ◌&&◌, ◌||◌, Option, none, some, [],
  ◌=ˢ◌, ◌⊎◌, inl, inr, arith, if◌then◌else◌, Bool-cases,
}
use ppflight_agent.Journal.Types.{
  Phase, received, running, submitted, waiting, succeeded, failed, indeterminate, rejected, unknown,
  Receipt, AuditContext, Outcome, as_state, rolled_back, Stage, no_stage, policy, execution,
  receipt_stage, Event, JournalRecord, Outside,
}
use ppflight_agent.Journal.Audit.{
  event_of, apply_compatibility, assembled, is_accepted, is_progress, outcome_of, stage_of,
  has_task, is_indeterminate, is_rejected, time_of,
}
use ppflight_agent.Journal.{with_operation, kept, keeps_result}

-- By the state and by whether a task is named: whether the receipt is accepted, whether it is
-- asynchronous, and whether a mutation may have succeeded.
abbrev pub flags_in : Phase → Bool → Bool × Bool × Bool
flags_in running task = (true, true, false)
flags_in submitted task = (true, true, false)
flags_in waiting task = (true, true, false)
flags_in succeeded task = (true, task, false)
flags_in failed task = (task, task, false)
flags_in indeterminate task = (false, false, true)
flags_in received task = (false, false, false)
flags_in rejected task = (false, false, false)
flags_in unknown task = (false, false, false)

-- The receipt of a record: the one given, with the record's operation if it names none, and its
-- flags.
pub record IsFilled (r : JournalRecord) (x z : Receipt) : Type 0 where
  pub others : z ≡ record x {
    operation_id = z.operation_id;
    accepted = z.accepted;
    asynchronous = z.asynchronous;
    mutation_may_have_succeeded = z.mutation_may_have_succeeded;
  }
  pub named : (x.operation_id =ˢ "") ≡ false → z.operation_id ≡ x.operation_id
  pub unnamed : (x.operation_id =ˢ "") ≡ true → z.operation_id ≡ r.operation_id
  pub flags :
      (z.accepted, z.asynchronous, z.mutation_may_have_succeeded)
      ≡ flags_in x.state (not (x.pve_task_upid =ˢ "") || not (x.agent_upgrade_id =ˢ ""))

flags_lem :
    (s : Phase) (task : Bool)
    → let accepted = is_accepted s task in
      (accepted, is_progress s || (task && accepted), is_indeterminate s) ≡ flags_in s task
unfolding is_accepted is_progress
flags_lem received true = refl
flags_lem received false = refl
flags_lem running true = refl
flags_lem running false = refl
flags_lem submitted true = refl
flags_lem submitted false = refl
flags_lem waiting true = refl
flags_lem waiting false = refl
flags_lem succeeded true = refl
flags_lem succeeded false = refl
flags_lem failed true = refl
flags_lem failed false = refl
flags_lem indeterminate true = refl
flags_lem indeterminate false = refl
flags_lem rejected true = refl
flags_lem rejected false = refl
flags_lem unknown true = refl
flags_lem unknown false = refl

pub with_operation-IsFilled : (r : JournalRecord) (x : Receipt) → IsFilled r x (with_operation r x)
unfolding apply_compatibility is_accepted is_progress
with_operation-IsFilled r x = record {
  others = refl;
  named = λ h. rw h;
  unnamed = λ h. rw h;
  flags = flags_lem x.state (has_task x);
}

-- By the state, and for an upgrade by whether its code is that of a rollback.
abbrev pub outcome_in : Bool → Bool → Phase → Outcome
outcome_in true is_back waiting = as_state submitted
outcome_in true true failed = rolled_back
outcome_in _ _ state = as_state state

abbrev pub stage_in : Phase → Stage
stage_in rejected = policy
stage_in failed = execution
stage_in indeterminate = receipt_stage
stage_in _ = no_stage

-- A time that is left out if it is zero.
abbrev pub IsTime : ℕ → Option ℕ → Type 0
IsTime t o = ((t ≡ 0) × (o ≡ none)) ⊎ ((t ≢ 0) × (o ≡ some t))

-- A text that is hashed unless it is empty.
abbrev pub IsHashed : Outside → String → String → Type 0
IsHashed out text o =
    (((text =ˢ "") ≡ true) × (o ≡ "")) ⊎ (((text =ˢ "") ≡ false) × (o ≡ out.hash text))

-- The audit event of a receipt in its context.
pub record IsEventOf (out : Outside) (c : AuditContext) (z : Receipt) (e : Event) : Type 0 where
  pub event_id : e.event_id ≡ z.receipt_id
  pub context : e.context ≡ c
  pub accepted_at : e.accepted_at ≡ some c.accepted_at
  pub started_at : IsTime z.started_at e.started_at
  pub finished_at : IsTime z.finished_at e.finished_at
  pub outcome :
      e.outcome
      ≡ outcome_in (c.action =ˢ "agent.upgrade") (z.code =ˢ "AGENT_UPGRADE_ROLLED_BACK") z.state
  pub error_code : e.error_code ≡ z.code
  pub upid_digest : IsHashed out z.pve_task_upid e.upid_digest
  pub result_digest : out.receipt_digest z ≡ some e.result_digest
  pub denied : z.state ≡ rejected → e.is_denied ≡ true
  pub allowed : z.state ≢ rejected → e.is_denied ≡ false
  pub failure_stage : e.failure_stage ≡ stage_in z.state
  pub error : e.error ≡ z.error
  pub is_valid : out.is_valid_event e ≡ true

outcome_lem :
    (b : Bool) (z : Receipt)
    → outcome_of b z ≡ outcome_in b (z.code =ˢ "AGENT_UPGRADE_ROLLED_BACK") z.state
unfolding outcome_of
outcome_lem false z = ground arith
outcome_lem true z = ground arith

stage_lem : (b back : Bool) (s : Phase) → stage_of s (outcome_in b back s) ≡ stage_in s
unfolding stage_of
stage_lem b back s = ground arith

time_lem : (t : ℕ) → IsTime t (time_of t)
time_lem t = ground arith

hashed_lem :
    (out : Outside) (text : String) → IsHashed out text (if text =ˢ "" then "" else out.hash text)
hashed_lem out text = ground arith

rejected_allowed : (s : Phase) → s ≢ rejected → is_rejected s ≡ false
rejected_allowed s h = ground arith

assembled-IsEventOf :
    (out : Outside) (c : AuditContext) (z : Receipt) (digest : String)
    → out.receipt_digest z ≡ some digest
    → out.is_valid_event (assembled out c z digest) ≡ true
    → IsEventOf out c z (assembled out c z digest)
assembled-IsEventOf out c z digest d v = record {
  event_id = refl;
  context = refl;
  accepted_at = refl;
  started_at = time_lem z.started_at;
  finished_at = time_lem z.finished_at;
  outcome = outcome_lem (c.action =ˢ "agent.upgrade") z;
  error_code = refl;
  upid_digest = hashed_lem out z.pve_task_upid;
  result_digest = d;
  denied = λ h. rw h;
  allowed = λ h. rejected_allowed z.state h;
  failure_stage =
      ap (λ o. stage_of z.state o) (outcome_lem (c.action =ˢ "agent.upgrade") z)
      ∙ stage_lem (c.action =ˢ "agent.upgrade") (z.code =ˢ "AGENT_UPGRADE_ROLLED_BACK") z.state;
  error = refl;
  is_valid = v;
}

-- An event that could be made is the receipt's.
pub event_of-IsEventOf :
    (out : Outside) (c : AuditContext) (z : Receipt) (e : Event)
    → event_of out c z ≡ some e
    → IsEventOf out c z e
unfolding event_of
event_of-IsEventOf out c z e = go (not (out.is_valid_context c))
  where
    checked :
        (digest : String)
        → out.receipt_digest z ≡ some digest
        → (b : Bool) → out.is_valid_event (assembled out c z digest) ≡ b
        → (if b then some (assembled out c z digest) else none) ≡ some e
        → IsEventOf out c z e
    checked digest d true v k =
        subst (IsEventOf out c z) (cc) (assembled-IsEventOf out c z digest d v)
    checked digest d false v k = absurd (cc)

    digested :
        (o : Option String)
        → out.receipt_digest z ≡ o
        → (elim o [
          | none ↦ none
          | some digest ↦
              if out.is_valid_event (assembled out c z digest)
              then some (assembled out c z digest)
              else none
        ])
          ≡ some e
        → IsEventOf out c z e
    digested none d k = absurd (cc)
    digested (some digest) d k =
        checked digest d (out.is_valid_event (assembled out c z digest)) refl k

    go :
        (b : Bool)
        → (if b then none else elim (out.receipt_digest z) [
          | none ↦ none
          | some digest ↦
              if out.is_valid_event (assembled out c z digest)
              then some (assembled out c z digest)
              else none
        ])
          ≡ some e
        → IsEventOf out c z e
    go true k = absurd (cc)
    go false k = digested (out.receipt_digest z) refl k

module _ (out : Outside) where
  -- The results that the journal keeps.
  abbrev pub IsReplayed : JournalRecord → Receipt → Type 0
  IsReplayed r z =
      (z.state ≡ succeeded) × ((z.code =ˢ "SUCCEEDED") ≡ true) × (out.is_replayable r z ≡ true)

  -- The receipt as the journal has it: without its result, unless that may be replayed.
  abbrev pub IsStored : JournalRecord → Receipt → Receipt → Type 0
  IsStored r z y =
      (IsReplayed r z × (y ≡ z)) ⊎ ((¬ IsReplayed r z) × (y ≡ record z { result = [] }))

  replayed : (r : JournalRecord) (z : Receipt) → keeps_result out r z ≡ true → IsReplayed r z
  replayed r z h = ground arith

  not-IsReplayed :
      (r : JournalRecord) (z : Receipt) → keeps_result out r z ≡ false → ¬ IsReplayed r z
  not-IsReplayed r z h (s, c, p) = absurd (ground arith)

  pub kept-IsStored : (r : JournalRecord) (z : Receipt) → IsStored r z (kept out r z)
  kept-IsStored r z = elim (Bool-cases (keeps_result out r z)) [
    | inl h ↦ inl (replayed r z h, rw h)
    | inr h ↦ inr (not-IsReplayed r z h, rw h)
  ]
