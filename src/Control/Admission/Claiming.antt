-- ===== src/Control/Admission/Claiming.antt =====
-- A claimed command is started only if no started command has its file.
use ppflight_agent.Control.Admission.Starts.{
  Distinct, IsOnce, Safe, Steady-Safe, start-Safe, IsFresh,
}
use ppflight_agent.Prelude.{
  String, ◌≡◌, refl, Bool, true, false, Option, List, if◌then◌else◌, All, All-imp,
}
use ppflight_agent.Prelude.Exec.{Result, ok, err, Post}
use ppflight_agent.Control.Command.{Command}
use ppflight_agent.Control.Codes.{claim_code}
use ppflight_agent.Control.World.{World, Failure}
use ppflight_agent.Control.Admission.{
  Service, Moment, enqueue_journaled, reject, settle, start, claimed, is_production, is_audited,
  claim_with,
}
use ppflight_agent.Control.Admission.Steady.{
  Covers, enqueue_journaled-Steady, reject-Steady, settle-Steady,
}
use ppflight_agent.Journal.Types.{AuditContext, Journal, Err}
use ppflight_agent.Journal.Claim.{Claimed, execute, duplicate, claim}
use ppflight_agent.Journal.Receipts.{HasReceipt}
use ppflight_agent.Journal.Receipts.Reads.{IsDuplicate}
use ppflight_agent.Journal.Receipts.Intent.{claim-Claims}

module _ (s : Service) where
  claimed-Safe :
      (c : Command) (at : Moment) (a : Claimed) (st : List String)
      → Distinct st
      → (a ≡ execute → IsFresh s c st)
      → Safe s st (claimed s c at a)
  unfolding claimed
  claimed-Safe c at (duplicate x) st d f =
      Steady-Safe s st (enqueue_journaled s c.command_id x) d
        (enqueue_journaled-Steady s c.command_id x)
  claimed-Safe c at execute st d f = go (is_production s)
    where
      go : (b : Bool) → Safe s st (if b then start s c at else settle s c (s.execute_now c at.now))
      go true = start-Safe s c at st d (f refl)
      go false =
          Steady-Safe s st (settle s c (s.execute_now c at.now)) d
            (settle-Steady s c (s.execute_now c at.now))

  pub claim_with-Safe :
      (c : Command) (at : Moment) (audit : Option AuditContext) (st : List String)
      → Distinct st
      → Safe s st (claim_with s c at audit)
  unfolding claim_with
  claim_with-Safe c at audit st d = record { run = λ w h. go w (attempt w).0 (facts w h) h.1 }
    where
      attempt : World → Result Err Claimed × Journal
      attempt w = claim s.out s.tools c at.now at.claim_id audit w.journal

      -- What the claim has left, for each started command.
      Left : World → String → Type 0
      Left w id =
          Post (IsDuplicate s.out c (s.out.path id)) (λ _. HasReceipt (s.out.path id)) (attempt w).0
            (attempt w).1

      facts : (w : World) → Covers s.out st st w → All (Left w) st
      facts w h =
          All-imp (λ id. HasReceipt (s.out.path id) w.journal) (Left w)
            (λ id.
              (claim-Claims s.out s.tools (s.out.path id) c at.now at.claim_id audit).run w.journal)
            st h.0

      go :
          (w : World) (r : Result Err Claimed)
          → All
              (λ id.
                Post
                  (IsDuplicate s.out c (s.out.path id))
                  (λ _. HasReceipt (s.out.path id))
                  r
                  (attempt w).1)
              st
          → w.started ≡ st
          → let o : Result Failure (Unit {0}) × World = elim r [
            | ok a ↦ claimed s c at a (record w { journal = (attempt w).1 })
            | err e ↦
                reject s c (claim_code e) (is_audited s c) at (record w { journal = (attempt w).1 })
          ] in
            Post (λ _. IsOnce s.out) (λ _. IsOnce s.out) o.0 o.1
      go w (ok a) k e =
          (claimed-Safe c at a st d (λ x. All-imp _ _ (λ id h m. h.0 m x) st k)).run
            (record w { journal = (attempt w).1 }) (All-imp _ _ (λ id h. h.1) st k, e)
      go w (err f) k e =
          (Steady-Safe s st (reject s c (claim_code f) (is_audited s c) at) d
              (reject-Steady s c (claim_code f) (is_audited s c) at)).run
            (record w { journal = (attempt w).1 }) (k, e)
