-- ===== src/Journal/Receipts/Intent.antt =====
-- A claim keeps every receipt, and a command with one is not claimed for execution.
use ppflight_agent.Journal.Receipts.Scanning.{
  identity_used-Keeps, take_resource-Keeps, lineage_of-Keeps, unused_identity-Keeps,
}
use ppflight_agent.Prelude.{
  String, ℕ, ◌≡◌, refl, Bool, true, false, not, Option, none, some, ◌=ˢ◌, if◌then◌else◌,
}
use ppflight_agent.Prelude.Exec.{
  Result, ok, err, return, fail, Triple-bind, Triple-return, Triple-fail,
}
use ppflight_agent.Control.Command.{Command, command_digest}
use ppflight_agent.Control.Actions.{resource_key, requires_approval}
use ppflight_agent.Journal.Types.{
  AuditContext, JournalRecord, Outside, Err, not_exist, command_conflict, digest_invalid,
  resource_invalid,
}
use ppflight_agent.Journal.Scans.{Tools, identity_used}
use ppflight_agent.Journal.Records.{new_record}
use ppflight_agent.Journal.Claim.{
  execute, claim, claim_read, claim_existing, claim_same, claim_new, backfill, take_resource,
  lineage_of, unused_identity,
}
use ppflight_agent.Journal.{read, write}
use ppflight_agent.Journal.Receipts.{HasReceipt, return-Keeps, choose-Keeps, same_files-HasReceipt}
use ppflight_agent.Journal.Receipts.Claims.{Rewritten, backfill-Right, Claims, settle-Claims}
use ppflight_agent.Journal.Receipts.Reads.{
  Right, IsOther, write-Right, read-cases, read-Right, read-IsOther,
}

module _ (out : Outside) (tools : Tools) where
  claim_new-Claims :
      (n : String) (c : Command) (now : ℕ) (audit : Option AuditContext) (key digest : String)
      → IsOther out c n
      → Claims out tools c n (claim_new out tools c now audit key digest)
  unfolding claim_new
  claim_new-Claims n c now audit key digest o =
      Triple-bind (λ _. HasReceipt n) (identity_used out tools c) _
        (identity_used-Keeps out tools c n)
        (λ used.
          Triple-bind (λ _. HasReceipt n) (unused_identity out tools used) _
            (unused_identity-Keeps out tools used n)
            (λ _.
              Triple-bind (λ _. HasReceipt n)
                (if requires_approval c.action then take_resource out tools c key else return tt) _
                (choose-Keeps (requires_approval c.action) (take_resource out tools c key)
                  (return tt) (take_resource-Keeps out tools c key) (return-Keeps tt) n)
                (λ _.
                  Triple-bind (λ _. HasReceipt n) (lineage_of out tools c) _
                    (lineage_of-Keeps out tools c n)
                    (λ l.
                      Triple-bind (λ _. HasReceipt n)
                        (write out c.command_id (new_record c now audit key digest l))
                        (λ _. return execute) (write-Right out c n _ (λ m. absurd (o m)))
                        (λ _. Triple-return execute (λ d h. ((λ m _. o m), h)))))))

  claim_existing-Claims :
      (n : String) (c : Command) (now : ℕ) (new_id : Option String) (audit : Option AuditContext)
      (digest : String) (r : JournalRecord)
      → Right out c n r
      → Claims out tools c n (claim_existing out tools c now new_id audit digest r)
  unfolding claim_existing claim_same
  claim_existing-Claims n c now new_id audit digest r o = go (r.digest =ˢ digest)
    where
      go :
          (b : Bool)
          → Claims out tools c n
              (if not b then fail command_conflict else claim_same out tools c now new_id audit r)
      go false = Triple-fail command_conflict (λ d h. h)
      go true =
          Triple-bind (Rewritten out tools c n) (backfill out tools c r audit) _
            (backfill-Right out tools c n r audit o)
            (λ r'. record {
              run = λ d h. (settle-Claims out tools c n now new_id r' h.0).run d h.1;
            })

  claim_read-Claims :
      (n : String) (c : Command) (now : ℕ) (new_id : Option String) (audit : Option AuditContext)
      (key digest : String) (o : Result Err JournalRecord)
      → ((r : JournalRecord) → o ≡ ok r → Right out c n r)
      → (o ≡ err not_exist → IsOther out c n)
      → Claims out tools c n (claim_read out tools c now new_id audit key digest o)
  unfolding claim_read
  claim_read-Claims n c now new_id audit key digest (ok r) right other =
      claim_existing-Claims n c now new_id audit digest r (right r refl)
  claim_read-Claims n c now new_id audit key digest (err not_exist) right other =
      claim_new-Claims n c now audit key digest (other refl)
  claim_read-Claims n c now new_id audit key digest (err e) right other = Triple-fail e (λ d h. h)

  -- From a journal in which the file `n` has a receipt, a claim leaves one there, and returns a command
  -- for execution only if its file is another.
  pub claim-Claims :
      (n : String) (c : Command) (now : ℕ) (new_id : Option String) (audit : Option AuditContext)
      → Claims out tools c n (claim out tools c now new_id audit)
  unfolding claim
  claim-Claims n c now new_id audit = go (resource_key c) (command_digest tools.encoding c)
    where
      read_first :
          (key digest : String)
          → Claims out tools c n (λ d.
            let (r, u) = read out c.command_id d in
            claim_read out tools c now new_id audit key digest r u)
      read_first key digest = record {
        run = λ d h.
            (claim_read-Claims n c now new_id audit key digest (read out c.command_id d).0
                (λ r e. read-Right out c n d r h e) (λ e. read-IsOther out c n d h e)).run
              (read out c.command_id d).1
              (same_files-HasReceipt n d (read out c.command_id d).1 (read-cases out c d).1 h);
      }

      go :
          (o : Option String) (digest : String)
          → Claims out tools c n (elim o [
            | none ↦ fail resource_invalid
            | some key ↦ if digest =ˢ "" then fail digest_invalid else λ d.
                let (r, u) = read out c.command_id d in
                claim_read out tools c now new_id audit key digest r u
          ])
      go none digest = Triple-fail resource_invalid (λ d h. h)
      go (some key) digest = checked (digest =ˢ "")
        where
          checked :
              (b : Bool)
              → Claims out tools c n (
                  if b then fail digest_invalid else λ d.
                  let (r, u) = read out c.command_id d in
                  claim_read out tools c now new_id audit key digest r u)
          checked true = Triple-fail digest_invalid (λ d h. h)
          checked false = read_first key digest
