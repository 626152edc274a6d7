-- ===== src/Journal/Receipts/Calls.antt =====
-- The calls of the journal that follow a claim keep every receipt.
use ppflight_agent.Prelude.{
  String, ◌≡◌, refl, Bool, true, false, not, ◌&&◌, Option, none, some, ◌=ˢ◌, if◌then◌else◌,
}
use ppflight_agent.Prelude.Exec.{ok, err, return, fail}
use ppflight_agent.Journal.Types.{
  Receipt, AuditContext, Event, JournalRecord, Outside, command_conflict, mismatch, audit_first,
  invalid_audit,
}
use ppflight_agent.Journal.Audit.{event_of}
use ppflight_agent.Journal.Receipts.{
  Keeps, return-Keeps, fail-Keeps, pure-Keeps, if-Keeps, bind-Keeps, write-Keeps, read-Keeps,
}
use ppflight_agent.Journal.{
  read, write, is_running, is_some, is_audited, with_operation, begun, begin_record, begin_checked,
  begin_running, kept, completed, audited, write_result, complete_record, complete_checked,
  complete, authorize_record, authorize_upgrade, audit_record, mark_audit_queued, receipt_record,
  mark_receipt_queued, pending_event, pending_audit_for_receipt,
}

module _ (out : Outside) where
  begin_record-Keeps :
      (id : String) (x : Receipt) (r : JournalRecord) (o : Option Receipt)
      → Keeps (begin_record out id x r o)
  unfolding begin_record
  begin_record-Keeps id x r (some old) =
      if-Keeps (is_running r.state && is_running old.state) (return tt) (fail command_conflict)
        (return-Keeps tt) (fail-Keeps command_conflict)
  begin_record-Keeps id x r none =
      if-Keeps (not (x.command_id =ˢ r.command_id)) (fail mismatch) (write out id (begun out r x))
        (fail-Keeps mismatch) (write-Keeps out id _ _ refl)

  begin_checked-Keeps :
      (id digest : String) (x : Receipt) (r : JournalRecord)
      → Keeps (begin_checked out id digest x r)
  unfolding begin_checked
  begin_checked-Keeps id digest x r =
      if-Keeps (not (r.digest =ˢ digest)) (fail command_conflict)
        (begin_record out id x r r.receipt) (fail-Keeps command_conflict)
        (begin_record-Keeps id x r r.receipt)

  pub begin_running-Keeps :
      (id digest : String) (x : Receipt) → Keeps (begin_running out id digest x)
  unfolding begin_running
  begin_running-Keeps id digest x =
      bind-Keeps (read out id) (begin_checked out id digest x) (read-Keeps out id)
        (begin_checked-Keeps id digest x)

  write_completed-Keeps :
      (id : String) (full x : Receipt) (r : JournalRecord) (c : Option AuditContext)
      → r.receipt ≡ some x
      → Keeps (write_result out id (audited out r full c))
  unfolding audited
  write_completed-Keeps id full x r none e = write-Keeps out id r x e
  write_completed-Keeps id full x r (some c) e = go (is_audited r full) (event_of out c full)
    where
      go :
          (b : Bool) (o : Option Event)
          → Keeps (
              write_result out id (
                if b
                then elim o [
                  | none ↦ err invalid_audit
                  | some e ↦ ok (record r { audit_pending = some e })
                ]
                else ok r))
      go true none = fail-Keeps invalid_audit
      go true (some event) = write-Keeps out id _ x e
      go false o = write-Keeps out id r x e

  complete_record-Keeps :
      (id : String) (x : Receipt) (r : JournalRecord) → Keeps (complete_record out id x r)
  unfolding complete_record
  complete_record-Keeps id x r =
      let full = with_operation r x in
      if-Keeps (not (x.command_id =ˢ r.command_id)) (fail mismatch)
        (write_result out id (audited out (completed out r full) full r.audit_context))
        (fail-Keeps mismatch)
        (write_completed-Keeps id full (kept out r full) (completed out r full) r.audit_context
          refl)

  complete_checked-Keeps :
      (id digest : String) (x : Receipt) (r : JournalRecord)
      → Keeps (complete_checked out id digest x r)
  unfolding complete_checked
  complete_checked-Keeps id digest x r =
      if-Keeps (not (r.digest =ˢ digest)) (fail command_conflict) (complete_record out id x r)
        (fail-Keeps command_conflict) (complete_record-Keeps id x r)

  pub complete-Keeps : (id digest : String) (x : Receipt) → Keeps (complete out id digest x)
  unfolding complete
  complete-Keeps id digest x =
      bind-Keeps (read out id) (complete_checked out id digest x) (read-Keeps out id)
        (complete_checked-Keeps id digest x)

  pub authorize_upgrade-Keeps :
      (id digest upgrade_id : String) → Keeps (authorize_upgrade out id digest upgrade_id)
  unfolding authorize_upgrade
  authorize_upgrade-Keeps id digest upgrade_id =
      bind-Keeps (read out id) (λ r d. (authorize_record out digest upgrade_id r r.receipt, d))
        (read-Keeps out id)
        (λ r. pure-Keeps (λ d. authorize_record out digest upgrade_id r r.receipt))

  audit_record-Keeps :
      (id event_id : String) (r : JournalRecord) (e : Option Event) (o : Option Receipt)
      → r.receipt ≡ o
      → Keeps (audit_record out id event_id r e o)
  unfolding audit_record
  audit_record-Keeps id event_id r none o h = return-Keeps tt
  audit_record-Keeps id event_id r (some e) none h = fail-Keeps mismatch
  audit_record-Keeps id event_id r (some e) (some x) h =
      if-Keeps (x.receipt_id =ˢ event_id && e.event_id =ˢ event_id)
        (write out id (record r { audit_pending = none })) (fail mismatch)
        (write-Keeps out id _ x h) (fail-Keeps mismatch)

  pub mark_audit_queued-Keeps : (id event_id : String) → Keeps (mark_audit_queued out id event_id)
  unfolding mark_audit_queued
  mark_audit_queued-Keeps id event_id =
      bind-Keeps (read out id) (λ r. audit_record out id event_id r r.audit_pending r.receipt)
        (read-Keeps out id) (λ r. audit_record-Keeps id event_id r r.audit_pending r.receipt refl)

  receipt_record-Keeps :
      (id receipt_id : String) (r : JournalRecord) (o : Option Receipt)
      → r.receipt ≡ o
      → Keeps (receipt_record out id receipt_id r o)
  unfolding receipt_record
  receipt_record-Keeps id receipt_id r none h = fail-Keeps mismatch
  receipt_record-Keeps id receipt_id r (some x) h =
      if-Keeps (not (x.receipt_id =ˢ receipt_id)) (fail mismatch)
        (λ d.
          if is_some r.audit_pending
          then (err audit_first, d)
          else if not r.receipt_pending
          then (ok tt, d)
          else write out id (record r { receipt_pending = false }) d)
        (fail-Keeps mismatch)
        (if-Keeps (is_some r.audit_pending) (fail audit_first)
          (λ d.
            if not r.receipt_pending
            then (ok tt, d)
            else write out id (record r { receipt_pending = false }) d)
          (fail-Keeps audit_first)
          (if-Keeps (not r.receipt_pending) (return tt)
            (write out id (record r { receipt_pending = false })) (return-Keeps tt)
            (write-Keeps out id _ x h)))

  pub mark_receipt_queued-Keeps :
      (id receipt_id : String) → Keeps (mark_receipt_queued out id receipt_id)
  unfolding mark_receipt_queued
  mark_receipt_queued-Keeps id receipt_id =
      bind-Keeps (read out id) (λ r. receipt_record out id receipt_id r r.receipt)
        (read-Keeps out id) (λ r. receipt_record-Keeps id receipt_id r r.receipt refl)

  pub pending_audit_for_receipt-Keeps :
      (id receipt_id : String) → Keeps (pending_audit_for_receipt out id receipt_id)
  unfolding pending_audit_for_receipt
  pending_audit_for_receipt-Keeps id receipt_id =
      bind-Keeps (read out id) (λ r d. (pending_event out receipt_id r.receipt r.audit_pending, d))
        (read-Keeps out id)
        (λ r. pure-Keeps (λ d. pending_event out receipt_id r.receipt r.audit_pending))
