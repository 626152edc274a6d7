-- ===== src/Journal/Receipts/Running.antt =====
-- A command that began has a receipt.
use ppflight_agent.Prelude.{
  String, ◌≡◌, refl, ap, sym, ◌∙◌, Bool, true, false, not, ◌&&◌, Option, none, some, ◌=ˢ◌,
  if◌then◌else◌,
}
use ppflight_agent.Prelude.Exec.{Result, ok, err, bind_inversion}
use ppflight_agent.Journal.Types.{
  Receipt, JournalRecord, Journal, Outside, Err, command_conflict, mismatch,
}
use ppflight_agent.Journal.Entries.{find_entry, find-put}
use ppflight_agent.Journal.Outbox.{read_inversion, write_inversion}
use ppflight_agent.Journal.Receipts.{HasReceipt, same_files-HasReceipt}
use ppflight_agent.Journal.{
  read, write, is_running, begun, begin_record, begin_checked, begin_running,
}

module _ (out : Outside) (id digest : String) (x : Receipt) where
  begin_record-HasReceipt :
      (r : JournalRecord) (o : Option Receipt) (d d' : Journal)
      → find_entry (out.path id) d.files ≡ some (some r)
      → r.receipt ≡ o
      → begin_record out id x r o d ≡ (ok tt, d')
      → HasReceipt (out.path id) d'
  unfolding begin_record
  begin_record-HasReceipt r (some old) d d' f e = go (is_running r.state && is_running old.state)
    where
      go :
          (b : Bool)
          → let o : Result Err (Unit {0}) × Journal =
              if b then (ok tt, d) else (err command_conflict, d) in
            o ≡ (ok tt, d') → HasReceipt (out.path id) d'
      go true k =
          same_files-HasReceipt (out.path id) d d' (ap (λ z. z.1.files) (sym k)) (r, old, f, e)
      go false k = absurd (cc (ap (λ z. z.0) k))
  begin_record-HasReceipt r none d d' f e = go (x.command_id =ˢ r.command_id)
    where
      go :
          (b : Bool)
          → (if not b then (err mismatch, d) else write out id (begun out r x) d) ≡ (ok tt, d')
          → HasReceipt (out.path id) d'
      go true k = (
        begun out r x,
        _,
        ap (λ z. find_entry (out.path id) z) (write_inversion out id d d' _ k)
            ∙ find-put (out.path id) (begun out r x) d.files,
        refl,
      )
      go false k = absurd (cc (ap (λ z. z.0) k))

  begin_checked-HasReceipt :
      (r : JournalRecord) (d d' : Journal)
      → find_entry (out.path id) d.files ≡ some (some r)
      → begin_checked out id digest x r d ≡ (ok tt, d')
      → HasReceipt (out.path id) d'
  unfolding begin_checked
  begin_checked-HasReceipt r d d' f = go (r.digest =ˢ digest)
    where
      go :
          (b : Bool)
          → (if not b then (err command_conflict, d) else begin_record out id x r r.receipt d)
            ≡ (ok tt, d')
          → HasReceipt (out.path id) d'
      go true k = begin_record-HasReceipt r r.receipt d d' f refl k
      go false k = absurd (cc (ap (λ z. z.0) k))

  pub begin_running-HasReceipt :
      (d d' : Journal) → begin_running out id digest x d ≡ (ok tt, d') → HasReceipt (out.path id) d'
  unfolding begin_running
  begin_running-HasReceipt d d' e =
      let (r, u, m, k) = bind_inversion (read out id) (begin_checked out id digest x) d e in
      let (h, same) = read_inversion out id d u r m in
      begin_checked-HasReceipt r u d' (ap (λ z. find_entry (out.path id) z) same ∙ h.0) k
