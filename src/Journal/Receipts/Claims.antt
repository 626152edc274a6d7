-- ===== src/Journal/Receipts/Claims.antt =====
-- The parts of a claim on a file that is there: each keeps every receipt, and none takes a file with a
-- receipt for execution.
use ppflight_agent.Journal.Receipts.Reads.{IsDuplicate, IsOther, Right, write-Right}
use ppflight_agent.Prelude.{
  String, ℕ, ◌≡◌, refl, Bool, true, false, not, ◌||◌, Option, none, some, if◌then◌else◌,
}
use ppflight_agent.Prelude.Exec.{
  Exec, return, fail, Triple, Triple-bind, Triple-return, Triple-fail,
}
use ppflight_agent.Control.Command.{Command}
use ppflight_agent.Journal.Types.{
  Receipt, AuditContext, Event, JournalRecord, Journal, Outside, Err, invalid_audit, id_unavailable,
}
use ppflight_agent.Journal.Audit.{event_of}
use ppflight_agent.Journal.Scans.{Tools}
use ppflight_agent.Journal.Records.{indeterminate_receipt}
use ppflight_agent.Journal.Claim.{
  Claimed, execute, duplicate, settle, settle_open, redeliver, interrupt, interrupted, publish,
  backfill, rewrite, resumes,
}
use ppflight_agent.Journal.{write}
use ppflight_agent.Journal.Receipts.{HasReceipt, Keeps, fail-Keeps, write-Keeps}

module _ (out : Outside) (tools : Tools) (c : Command) where
  publish-Keeps :
      (r : JournalRecord) (x : Receipt)
      → r.receipt ≡ some x
      → Keeps (publish out tools c.command_id r x)
  unfolding publish
  publish-Keeps r x e = go r.audit_context
    where
      made :
          (o : Option Event)
          → Keeps {A = Unit} (elim o [
            | none ↦ fail invalid_audit
            | some event ↦ write out c.command_id (record r { audit_pending = some event })
          ])
      made none = fail-Keeps invalid_audit
      made (some event) = write-Keeps out c.command_id _ x e

      go :
          (o : Option AuditContext)
          → Keeps {A = Unit} (elim o [
            | none ↦ write out c.command_id r
            | some context ↦ elim (event_of out context x) [
              | none ↦ fail invalid_audit
              | some event ↦ write out c.command_id (record r { audit_pending = some event })
            ]
          ])
      go none = write-Keeps out c.command_id r x e
      go (some context) = made (event_of out context x)

  -- A record of the command, and the receipt of the file `n`.
  abbrev pub Rewritten : String → JournalRecord → Journal → Type 0
  Rewritten n r d = Right out c n r × HasReceipt n d

  rewrite-Right :
      (n : String) (r : JournalRecord)
      → Right out c n r
      → Triple (HasReceipt n) (rewrite out tools c r) (Rewritten n) (λ _. HasReceipt n)
  rewrite-Right n r o =
      Triple-bind (λ _. HasReceipt n) (write out c.command_id r) (λ _. return r)
        (write-Right out c n r o) (λ _. Triple-return r (λ d h. (o, h)))

  pub backfill-Right :
      (n : String) (r : JournalRecord) (audit : Option AuditContext)
      → Right out c n r
      → Triple (HasReceipt n) (backfill out tools c r audit) (Rewritten n) (λ _. HasReceipt n)
  unfolding backfill
  backfill-Right n r none o = Triple-return r (λ d h. (o, h))
  backfill-Right n r (some context) o = go r.audit_context r.receipt
    where
      made :
          (o' : Option Event)
          → Triple
              (HasReceipt n)
              (elim o' [
                | none ↦ fail invalid_audit
                | some e ↦
                    rewrite out tools c
                      (record r { audit_context = some context; audit_pending = some e })
              ])
              (Rewritten n)
              (λ _. HasReceipt n)
      made none = Triple-fail invalid_audit (λ d h. h)
      made (some e) = rewrite-Right n _ o

      go :
          (a : Option AuditContext) (y : Option Receipt)
          → Triple
              (HasReceipt n)
              (elim a [
                | some old ↦ return r
                | none ↦ elim y [
                  | none ↦ rewrite out tools c (record r { audit_context = some context })
                  | some x ↦ elim (event_of out context x) [
                    | none ↦ fail invalid_audit
                    | some e ↦
                        rewrite out tools c
                          (record r { audit_context = some context; audit_pending = some e })
                  ]
                ]
              ])
              (Rewritten n)
              (λ _. HasReceipt n)
      go (some old) y = Triple-return r (λ d h. (o, h))
      go none none = rewrite-Right n _ o
      go none (some x) = made (event_of out context x)

  abbrev pub Claims : String → Exec Journal Err Claimed → Type 0
  Claims n m = Triple (HasReceipt n) m (IsDuplicate out c n) (λ _. HasReceipt n)

  redeliver-Claims :
      (n : String) (now : ℕ) (r : JournalRecord)
      → IsOther out c n
      → Claims n (redeliver out tools c now r)
  unfolding redeliver
  redeliver-Claims n now r o =
      Triple-bind (λ _. HasReceipt n) (write out c.command_id (record r { updated_at = now }))
        (λ _. return execute) (write-Right out c n _ (λ m. absurd (o m)))
        (λ _. Triple-return execute (λ d h. ((λ m _. o m), h)))

  interrupt-Claims :
      (n : String) (now : ℕ) (r : JournalRecord) (x : Receipt)
      → Claims n (interrupt out tools c now r x)
  unfolding interrupt
  interrupt-Claims n now r x =
      Triple-bind (λ _. HasReceipt n)
        (publish out tools c.command_id (interrupted out tools now r x) x)
        (λ _. return (duplicate x)) (publish-Keeps _ x refl n)
        (λ _. Triple-return (duplicate x) (λ d h. ((λ _ e. absurd (cc)), h)))

  settle_open-Claims :
      (n : String) (now : ℕ) (new_id : Option String) (r : JournalRecord)
      → IsOther out c n
      → Claims n (settle_open out tools c now new_id r)
  unfolding settle_open
  settle_open-Claims n now new_id r o = go (resumes r || not r.mutating) new_id
    where
      go :
          (b : Bool) (i : Option String)
          → Claims n (
              if b then redeliver out tools c now r else elim i [
                | none ↦ fail id_unavailable
                | some id ↦ interrupt out tools c now r (indeterminate_receipt c now id)
              ])
      go true i = redeliver-Claims n now r o
      go false none = Triple-fail id_unavailable (λ d h. h)
      go false (some id) = interrupt-Claims n now r (indeterminate_receipt c now id)

  pub settle-Claims :
      (n : String) (now : ℕ) (new_id : Option String) (r : JournalRecord)
      → Right out c n r
      → Claims n (settle out tools c now new_id r)
  unfolding settle
  settle-Claims n now new_id r o = go r.receipt refl
    where
      go :
          (y : Option Receipt)
          → r.receipt ≡ y
          → Claims n (elim y [
            | some x ↦ return (duplicate x)
            | none ↦ settle_open out tools c now new_id r
          ])
      go (some x) e = Triple-return (duplicate x) (λ d h. ((λ _ e. absurd (cc)), h))
      go none e = settle_open-Claims n now new_id r (λ m. absurd (cc ((o m).1)))
