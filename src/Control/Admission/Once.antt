-- ===== src/Control/Admission/Once.antt =====
-- Each command is started once, over every sequence of admissions, completions, recoveries and restarts
-- of internal/control/service.go.
use ppflight_agent.Prelude.{
  String, ◌≡◌, refl, sym, All, Bool, true, false, not, ◌&&◌, Option, none, some, List, [],
  if◌then◌else◌,
}
use ppflight_agent.Prelude.Exec.{
  Exec, fail, branch, Triple, Triple-branch, Triple-imp, Triple-state,
}
use mathlib.Core.Path.{subst}
use ppflight_agent.Control.Command.{Command}
use ppflight_agent.Control.Actions.{requires_approval}
use ppflight_agent.Control.Verify.{verify}
use ppflight_agent.Control.Checks.{VerifyError}
use ppflight_agent.Control.Dispatcher.{Dispatcher, initial, WorkerStep}
use ppflight_agent.Control.World.{World, Failure, lane_full, on_journal, has_room}
use ppflight_agent.Control.Admission.{
  Service, Moment, enqueue_journaled, reject, reject_unverified, settle, is_production, is_audited,
  claim_with, admit_claim, admit_verified, admit,
}
use ppflight_agent.Control.Admission.Steady.{
  Covers, Steady, fail-Steady, on_journal-Steady, enqueue_journaled-Steady, reject-Steady,
  reject_unverified-Steady, settle-Steady,
}
use ppflight_agent.Control.Admission.Starts.{Distinct, IsOnce, Safe, Steady-Safe}
use ppflight_agent.Control.Admission.Claiming.{claim_with-Safe}
use ppflight_agent.Journal.Types.{Receipt, AuditContext}
use ppflight_agent.Journal.Contexts.{new_audit_context}
use ppflight_agent.Journal.Recovery.{Restart, recover_incomplete}
use ppflight_agent.Journal.Receipts.{HasReceipt}
use ppflight_agent.Journal.Receipts.Recoveries.{recover_incomplete-Keeps}

module _ (s : Service) where
  admit_claim-Safe :
      (c : Command) (at : Moment) (st : List String) → Distinct st → Safe s st (admit_claim s c at)
  unfolding admit_claim
  admit_claim-Safe c at st d =
      go (is_audited s c) (new_audit_context s.out c at.now s.agent_version)
    where
      go :
          (b : Bool) (o : Option AuditContext)
          → Safe s {A = Unit} st (
              if b
              then elim o [
                | none ↦ reject s c "JOURNAL_UNAVAILABLE" true at
                | some context ↦ claim_with s c at (some context)
              ]
              else claim_with s c at none)
      go true none =
          Steady-Safe s st (reject s c "JOURNAL_UNAVAILABLE" true at) d
            (reject-Steady s c "JOURNAL_UNAVAILABLE" true at)
      go true (some context) = claim_with-Safe s c at (some context) st d
      go false o = claim_with-Safe s c at none st d

  admit_verified-Safe :
      (c : Command) (at : Moment) (st : List String)
      → Distinct st
      → Safe s st (admit_verified s c at)
  unfolding admit_verified
  admit_verified-Safe c at st d = go (requires_approval c.action && not s.has_audit_sink)
    where
      held :
          {b : Bool} (test : World → Bool) (m : Exec World Failure Unit)
          → Safe s st m
          → Triple
              (λ w. Covers s.out st st w × (test w ≡ b))
              m
              (λ _. IsOnce s.out)
              (λ _. IsOnce s.out)
      held test m k =
          Triple-imp (Covers s.out st st) (λ _. IsOnce s.out) (λ _. IsOnce s.out) m (λ w h. h.0)
            (λ a w h. h) (λ e w h. h) k

      test : World → Bool
      test w = is_production s && not (has_room c w)

      go :
          (b : Bool)
          → Safe s {A = Unit} st (
              if b
              then reject s c "AUDIT_UNAVAILABLE" false at
              else branch test (fail lane_full) (admit_claim s c at))
      go true =
          Steady-Safe s st (reject s c "AUDIT_UNAVAILABLE" false at) d
            (reject-Steady s c "AUDIT_UNAVAILABLE" false at)
      go false =
          Triple-branch test (fail lane_full) (admit_claim s c at)
            (held test (fail lane_full)
              (Steady-Safe s st (fail lane_full) d (fail-Steady s.out lane_full)))
            (held test (admit_claim s c at) (admit_claim-Safe c at st d))

  admit-Safe :
      (c : Command) (at : Moment) (st : List String) → Distinct st → Safe s st (admit s c at)
  unfolding admit
  admit-Safe c at st d = go (verify s.primitives c (record s.config { now = at.now }))
    where
      go :
          (o : Option VerifyError)
          → Safe s {A = Unit} st
              (elim o [ some e ↦ reject_unverified s c e at | none ↦ admit_verified s c at ])
      go (some e) =
          Steady-Safe s st (reject_unverified s c e at) d (reject_unverified-Steady s c e at)
      go none = admit_verified-Safe c at st d

  Safe-IsOnce :
      {A : Type 0} (m : Exec World Failure A) (w : World)
      → Safe s w.started m
      → IsOnce s.out w
      → IsOnce s.out (m w).1
  Safe-IsOnce m w k h =
      Triple-state (Covers s.out w.started w.started) (IsOnce s.out) m k w (h.recorded, refl)

  Steady-IsOnce :
      {A : Type 0} (m : Exec World Failure A) (w : World)
      → Steady s.out m
      → IsOnce s.out w
      → IsOnce s.out (m w).1
  Steady-IsOnce m w k h = Safe-IsOnce m w (Steady-Safe s w.started m h.distinct k) h

  -- What can happen to the service: an admission; a step of the dispatcher's workers; the end of an
  -- execution, with any receipt; a recovery, which spares what is active; a delivery from the outbox; a
  -- restart, which forgets the dispatcher; and another schedule of disk failures.
  pub data Change (w : World) : World → Type 0 where
    admitted : (c : Command) (at : Moment) → Change w (admit s c at w).1
    worked : (d : Dispatcher) → WorkerStep w.dispatcher d → Change w (record w { dispatcher = d })
    executed : (c : Command) (x : Receipt) (lost : Bool) → Change w (settle s c (x, lost) w).1
    recovered :
        (at : Restart) (ids : List String)
        → Change w
            (on_journal
              (recover_incomplete s.out s.tools (record at { active = w.dispatcher.active }) ids)
              w).1
    delivered : (id : String) (x : Receipt) → Change w (enqueue_journaled s id x w).1
    restarted : Change w (record w { dispatcher = initial })
    failing :
        (outcomes : List Bool)
        → Change w (record w { journal = record w.journal { outcomes = outcomes } })

  -- From a journal with any files, before which nothing was started.
  pub data Reach : World → Type 0 where
    begin : (w : World) → w.started ≡ [] → Reach w
    change : {v w : World} → Reach v → Change v w → Reach w

  Change-IsOnce : {v w : World} → Change v w → IsOnce s.out v → IsOnce s.out w
  Change-IsOnce {v} (admitted c at) h =
      Safe-IsOnce (admit s c at) v (admit-Safe c at v.started h.distinct) h
  Change-IsOnce (worked d k) h = record { distinct = h.distinct; recorded = h.recorded }
  Change-IsOnce {v} (executed c x lost) h =
      Steady-IsOnce (settle s c (x, lost)) v (settle-Steady s c (x, lost)) h
  Change-IsOnce {v} (recovered at ids) h =
      let at' = record at { active = v.dispatcher.active } in
      Steady-IsOnce (on_journal (recover_incomplete s.out s.tools at' ids)) v
        (on_journal-Steady s.out (recover_incomplete s.out s.tools at' ids)
          (recover_incomplete-Keeps s.out s.tools at' ids))
        h
  Change-IsOnce {v} (delivered id x) h =
      Steady-IsOnce (enqueue_journaled s id x) v (enqueue_journaled-Steady s id x) h
  Change-IsOnce restarted h = record { distinct = h.distinct; recorded = h.recorded }
  Change-IsOnce (failing outcomes) h = record { distinct = h.distinct; recorded = h.recorded }

  -- Over every sequence of admissions, worker steps, completions, recoveries, deliveries, restarts and
  -- disk failures, no command ID is handed to a worker twice, and each that was has a receipt in its
  -- file of the journal, which no step takes away.
  pub Reach-IsOnce : {w : World} → Reach w → IsOnce s.out w
  Reach-IsOnce (begin w e) = record {
    distinct = subst Distinct (sym e) tt;
    recorded = subst (All (λ id. HasReceipt (s.out.path id) w.journal)) (sym e) tt;
  }
  Reach-IsOnce (change r k) = Change-IsOnce k (Reach-IsOnce r)
