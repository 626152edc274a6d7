-- ===== src/Journal/Outbox.antt =====
-- The two outboxes of a journal record: its receipt, and the audit event of that receipt.
use mathlib.Core.Path.{subst}
use ppflight_agent.Prelude.{
  String, ◌≡◌, refl, ap, sym, ◌∙◌, Bool, true, false, not, Option, none, some, ◌=ˢ◌, ◌⊎◌, inl, inr,
  if◌then◌else◌,
}
use ppflight_agent.Prelude.Exec.{ok, err, bind_inversion}
use ppflight_agent.Prelude.Disk.{quiet, atomic_write-cases, quiet-files}
use ppflight_agent.Journal.Types.{
  Receipt, Event, JournalRecord, Journal, Outside, io, corrupt, mismatch, audit_first,
}
use ppflight_agent.Journal.Entries.{find_entry, put_entry}
use ppflight_agent.Journal.{decode, read, write, mark_receipt_queued, receipt_record, is_some}

module _ (out : Outside) where
  -- The journal has this record for the command, and it is readable.
  abbrev pub Holds : String → JournalRecord → Journal → Type 0
  Holds id r d = (find_entry (out.path id) d.files ≡ some (some r)) × (out.is_readable r ≡ true)

  pub decode_inversion :
      (o : Option (Option JournalRecord)) (r : JournalRecord)
      → decode out o ≡ ok r
      → (o ≡ some (some r)) × (out.is_readable r ≡ true)
  unfolding decode
  decode_inversion none r e = absurd (cc)
  decode_inversion (some none) r e = absurd (cc)
  decode_inversion (some (some x)) r e = go (out.is_readable x) refl e
    where
      go :
          (b : Bool)
          → out.is_readable x ≡ b
          → (if b then ok x else err corrupt) ≡ ok r
          → (some (some x) ≡ some (some r)) × (out.is_readable r ≡ true)
      go true h k = (cc, cc)
      go false h k = absurd (cc)

  pub read_inversion :
      (id : String) (d u : Journal) (r : JournalRecord)
      → read out id d ≡ (ok r, u)
      → Holds id r d × (u.files ≡ d.files)
  unfolding read
  read_inversion id d u r e =
      let (a, v, q, k) =
        bind_inversion (quiet io) (λ _ x. (decode out (find_entry (out.path id) x.files), x)) d e in
      let same : v.files ≡ d.files = ap (λ o. o.1.files) (sym q) ∙ quiet-files io d in
      let (f, g) = decode_inversion (find_entry (out.path id) v.files) r (ap (λ o. o.0) k) in
      ((ap (λ x. find_entry (out.path id) x) (sym same) ∙ f, g), ap (λ o. o.1.files) (sym k) ∙ same)

  pub write_inversion :
      (id : String) (d u : Journal) (r : JournalRecord)
      → write out id r d ≡ (ok tt, u)
      → u.files ≡ put_entry (out.path id) r d.files
  unfolding write
  write_inversion id d u r e = elim (atomic_write-cases io (put_entry (out.path id) r) d) [
    | inl h ↦ ap (λ o. o.1.files) (sym e) ∙ h.1
    | inr (inl h) ↦ absurd (cc (ap (λ o. o.0) e))
    | inr (inr h) ↦ absurd (cc (ap (λ o. o.0) e))
  ]

  -- The record names this receipt, whose event is not waiting any more.
  abbrev pub Receipted : String → JournalRecord → Type 0
  Receipted receipt_id r =
      ((x : Receipt) × (r.receipt ≡ some x) × ((x.receipt_id =ˢ receipt_id) ≡ true))
      × (r.audit_pending ≡ none)

  -- The receipt is not waiting after this.
  abbrev pub Cleared : String → JournalRecord → Journal → Journal → Type 0
  Cleared id r d d' =
      ((r.receipt_pending ≡ false) × (d'.files ≡ d.files))
      ⊎ (d'.files ≡ put_entry (out.path id) (record r { receipt_pending = false }) d.files)

  receipt_record_lem :
      (id receipt_id : String) (r : JournalRecord) (o : Option Receipt) (d d' : Journal)
      → r.receipt ≡ o
      → receipt_record out id receipt_id r o d ≡ (ok tt, d')
      → Receipted receipt_id r × Cleared id r d d'
  unfolding receipt_record
  receipt_record_lem id receipt_id r none d d' s e = absurd (cc (ap (λ x. x.0) e))
  receipt_record_lem id receipt_id r (some x) d d' s e =
      matching (x.receipt_id =ˢ receipt_id) refl e
    where
      clearing :
          (b : Bool)
          → r.receipt_pending ≡ b
          → (if not b then (ok tt, d) else write out id (record r { receipt_pending = false }) d)
            ≡ (ok tt, d')
          → Cleared id r d d'
      clearing true p k = inr (write_inversion id d d' _ k)
      clearing false p k = inl (p, ap (λ x. x.1.files) (sym k))

      settled :
          (x.receipt_id =ˢ receipt_id) ≡ true
          → (a : Option Event) → r.audit_pending ≡ a
          → (if is_some a
              then (err audit_first, d)
              else if not r.receipt_pending
              then (ok tt, d)
              else write out id (record r { receipt_pending = false }) d)
            ≡ (ok tt, d')
          → Receipted receipt_id r × Cleared id r d d'
      settled m none p k = (((x, s, m), p), clearing r.receipt_pending refl k)
      settled m (some event) p k = absurd (cc (ap (λ x. x.0) k))

      matching :
          (b : Bool)
          → (x.receipt_id =ˢ receipt_id) ≡ b
          → (if not b
              then (err mismatch, d)
              else if is_some r.audit_pending
              then (err audit_first, d)
              else if not r.receipt_pending
              then (ok tt, d)
              else write out id (record r { receipt_pending = false }) d)
            ≡ (ok tt, d')
          → Receipted receipt_id r × Cleared id r d d'
      matching true m k = settled m r.audit_pending refl k
      matching false m k = absurd (cc (ap (λ x. x.0) k))

  -- A receipt is marked as queued only if the journal's record of the command has exactly this receipt
  -- and its audit event waits no more; the call changes nothing but that this receipt waits no more.
  pub mark_receipt_queued_lem :
      (id receipt_id : String) (d d' : Journal)
      → mark_receipt_queued out id receipt_id d ≡ (ok tt, d')
      → (r : JournalRecord) × Holds id r d × Receipted receipt_id r × Cleared id r d d'
  unfolding mark_receipt_queued
  mark_receipt_queued_lem id receipt_id d d' e =
      let (r, u, m, k) =
        bind_inversion (read out id) (λ r. receipt_record out id receipt_id r r.receipt) d e in
      let (h, same) = read_inversion id d u r m in
      let (x, c) = receipt_record_lem id receipt_id r r.receipt u d' refl k in
      (
        r,
        h,
        x,
        subst
            (λ fs.
              ((r.receipt_pending ≡ false) × (d'.files ≡ fs))
              ⊎ (d'.files ≡ put_entry (out.path id) (record r { receipt_pending = false }) fs))
            same c,
      )
