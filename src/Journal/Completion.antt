-- ===== src/Journal/Completion.antt =====
-- What `Complete` puts into the outboxes of a journal record.
use mathlib.Core.Path.{subst}
use ppflight_agent.Prelude.{
  arith, String, ◌≡◌, ◌≢◌, refl, ap, ◌∙◌, Bool, true, false, not, Option, none, some, ◌=ˢ◌, ◌⊎◌,
  inl, inr, if◌then◌else◌,
}
use ppflight_agent.Prelude.Exec.{Result, ok, err, bind_inversion}
use ppflight_agent.Journal.Types.{
  waiting, Receipt, AuditContext, Event, JournalRecord, Journal, Outside, Err, mismatch,
  command_conflict, invalid_audit,
}
use ppflight_agent.Journal.Entries.{find_entry, find-put}
use ppflight_agent.Journal.Audit.{event_of, apply_compatibility}
use ppflight_agent.Journal.Projection.{
  IsFilled, with_operation-IsFilled, IsEventOf, event_of-IsEventOf, IsStored, kept-IsStored,
}
use ppflight_agent.Journal.Outbox.{Holds, read_inversion, write_inversion, mark_receipt_queued_lem}
use ppflight_agent.Journal.{
  read, mark_receipt_queued, complete, complete_checked, complete_record, write_result, audited,
  completed, with_operation, is_audited, kept,
}

module _ (out : Outside) where
  -- A receipt that needs no audit event: a record without a context, or a mere wait of an upgrade.
  abbrev pub IsSpared : JournalRecord → Receipt → Type 0
  IsSpared r x =
      (r.audit_context ≡ none) ⊎ (((r.action =ˢ "agent.upgrade") ≡ true) × (x.state ≡ waiting))

  -- The receipt's event, where it needs one, or none that was not there before.
  abbrev pub Audits : JournalRecord → Receipt → Receipt → JournalRecord → Type 0
  Audits r x z r' =
      (IsSpared r x × (r'.audit_pending ≡ r.audit_pending))
      ⊎ ((c : AuditContext) × (e : Event) × (r.audit_context ≡ some c)
          × (¬ IsSpared r x)
          × (r'.audit_pending ≡ some e)
          × IsEventOf out c z e)

  -- The receipt waits in its outbox, and its audit event in the other.
  abbrev pub Outboxed : JournalRecord → Receipt → JournalRecord → Type 0
  Outboxed r x r' =
      (z : Receipt) × IsFilled r x z
      × (r'.receipt_pending ≡ true)
      × (r'.state ≡ x.state)
      × ((y : Receipt) × (r'.receipt ≡ some y) × IsStored out r z y)
      × Audits r x z r'

  spared : (r : JournalRecord) (x : Receipt) → is_audited r x ≡ false → IsSpared r x
  unfolding is_audited
  spared r x h = ground arith

  not-IsSpared :
      (r : JournalRecord) (x : Receipt) (c : AuditContext)
      → r.audit_context ≡ some c
      → is_audited r x ≡ true
      → ¬ IsSpared r x
  unfolding is_audited
  not-IsSpared r x c h a (inl n) = absurd (cc)
  not-IsSpared r x c h a (inr (u, w)) = absurd (ground arith)

  -- The record that a completion writes for the receipt `z`.
  abbrev Written : JournalRecord → Receipt → JournalRecord → Type 0
  Written r z s =
      (s.receipt_pending ≡ true)
      × (s.state ≡ z.state)
      × (s.receipt ≡ some (kept out r z))
      × Audits r z z s

  audited_inversion :
      (r s : JournalRecord) (z : Receipt) (o : Option AuditContext)
      → r.audit_context ≡ o
      → audited out (completed out r z) z o ≡ ok s
      → Written r z s
  unfolding audited is_audited
  audited_inversion r s z none c h =
      let same : completed out r z ≡ s = cc in
      subst (Written r z) same (refl, refl, refl, inl (inl c, refl))
  audited_inversion r s z (some c) a h = go (is_audited r z) refl h
    where
      made :
          is_audited r z ≡ true
          → (o : Option Event) → event_of out c z ≡ o
          → (elim o [
            | none ↦ err invalid_audit
            | some e ↦ ok (record (completed out r z) { audit_pending = some e })
          ])
            ≡ ok s
          → Written r z s
      made t none m k = absurd (cc)
      made t (some e) m k =
          let same : record (completed out r z) { audit_pending = some e } ≡ s = cc in
          subst (Written r z) same (
            refl,
            refl,
            refl,
            inr (c, e, a, not-IsSpared r z c a t, refl, event_of-IsEventOf out c z e m),
          )

      go :
          (b : Bool)
          → is_audited r z ≡ b
          → (if b
              then elim (event_of out c z) [
                | none ↦ err invalid_audit
                | some e ↦ ok (record (completed out r z) { audit_pending = some e })
              ]
              else ok (completed out r z))
            ≡ ok s
          → Written r z s
      go true t k = made t (event_of out c z) refl k
      go false t k =
          let same : completed out r z ≡ s = cc in
          subst (Written r z) same (refl, refl, refl, inl (spared r z t, refl))

  outboxed : (r s : JournalRecord) (x : Receipt) → Written r (with_operation r x) s → Outboxed r x s
  unfolding apply_compatibility
  outboxed r s x (pending, state, kept_receipt, audits) =
      let z : Receipt = with_operation r x in
      (
        z,
        with_operation-IsFilled r x,
        pending,
        state,
        (kept out r z, kept_receipt, kept-IsStored out r z),
        audits,
      )

  -- What a completion that succeeded has read and written.
  abbrev pub Completes : String → String → Receipt → Journal → Journal → Type 0
  Completes id digest x d d' =
      (r : JournalRecord) × (r' : JournalRecord) × Holds out id r d
      × ((r.digest =ˢ digest) ≡ true)
      × ((x.command_id =ˢ r.command_id) ≡ true)
      × (find_entry (out.path id) d'.files ≡ some (some r'))
      × Outboxed r x r'

  -- What follows the checks of a completion.
  abbrev Stores : String → Receipt → JournalRecord → Journal → Type 0
  Stores id x r d' =
      (r' : JournalRecord) × (find_entry (out.path id) d'.files ≡ some (some r')) × Outboxed r x r'

  write_result_lem :
      (id : String) (x : Receipt) (r : JournalRecord) (d d' : Journal)
      (o : Result Err JournalRecord)
      → audited out (completed out r (with_operation r x)) (with_operation r x) r.audit_context ≡ o
      → write_result out id o d ≡ (ok tt, d')
      → Stores id x r d'
  write_result_lem id x r d d' (err e) a k = absurd (cc (ap (λ z. z.0) k))
  write_result_lem id x r d d' (ok s) a k = (
    s,
    ap (λ z. find_entry (out.path id) z) (write_inversion out id d d' s k)
        ∙ find-put (out.path id) s d.files,
    outboxed r s x (audited_inversion r s (with_operation r x) r.audit_context refl a),
  )

  complete_record_lem :
      (id : String) (x : Receipt) (r : JournalRecord) (d d' : Journal)
      → complete_record out id x r d ≡ (ok tt, d')
      → ((x.command_id =ˢ r.command_id) ≡ true) × Stores id x r d'
  unfolding complete_record
  complete_record_lem id x r d d' = go (x.command_id =ˢ r.command_id) refl
    where
      go :
          (b : Bool)
          → (x.command_id =ˢ r.command_id) ≡ b
          → (if not b
              then (err mismatch, d)
              else write_result out id
                  (audited out
                    (completed out r (with_operation r x))
                    (with_operation r x)
                    r.audit_context)
                  d)
            ≡ (ok tt, d')
          → ((x.command_id =ˢ r.command_id) ≡ true) × Stores id x r d'
      go true m k = (m, write_result_lem id x r d d' _ refl k)
      go false m k = absurd (cc (ap (λ z. z.0) k))

  complete_checked_lem :
      (id digest : String) (x : Receipt) (r : JournalRecord) (d d' : Journal)
      → complete_checked out id digest x r d ≡ (ok tt, d')
      → ((r.digest =ˢ digest) ≡ true) × (complete_record out id x r d ≡ (ok tt, d'))
  unfolding complete_checked
  complete_checked_lem id digest x r d d' = go (r.digest =ˢ digest) refl
    where
      go :
          (b : Bool)
          → (r.digest =ˢ digest) ≡ b
          → (if not b then (err command_conflict, d) else complete_record out id x r d)
            ≡ (ok tt, d')
          → ((r.digest =ˢ digest) ≡ true) × (complete_record out id x r d ≡ (ok tt, d'))
      go true m k = (m, k)
      go false m k = absurd (cc (ap (λ z. z.0) k))

  -- A command whose completion succeeded had a readable record of the same digest and command, and
  -- its record now has the state of the receipt and waits in the receipt outbox. The receipt it holds
  -- is the one given, with the record's operation if it named none and with its flags by the table
  -- `flags_in`, and without its result unless that may be replayed. The audit event of the receipt
  -- waits in the audit outbox, each of its fields as `IsEventOf` says: with no audit context, or for a
  -- mere wait of an upgrade, that outbox is as it was.
  pub complete_outboxed :
      (id digest : String) (x : Receipt) (d d' : Journal)
      → complete out id digest x d ≡ (ok tt, d')
      → Completes id digest x d d'
  unfolding complete
  complete_outboxed id digest x d d' e =
      let (r, u, m, k) =
        bind_inversion (read out id) (λ r. complete_checked out id digest x r) d e in
      let (h, same) = read_inversion out id d u r m in
      let (g, c) = complete_checked_lem id digest x r u d' k in
      let (w, (r', f, o)) = complete_record_lem id x r u d' c in (r, r', h, g, w, f, o)

  -- After a completion that put an audit event into the outbox, the receipt cannot be marked as
  -- queued: the event goes first.
  pub audit_goes_first :
      (id digest : String) (x : Receipt) (receipt_id : String) (r : JournalRecord)
      (c : AuditContext) (d d' d'' : Journal)
      → Holds out id r d
      → r.audit_context ≡ some c
      → is_audited r x ≡ true
      → complete out id digest x d ≡ (ok tt, d')
      → mark_receipt_queued out id receipt_id d' ≢ (ok tt, d'')
  audit_goes_first id digest x receipt_id r c d d' d'' h ctx a e k =
      let (r0, r1, h0, g, w, f, o) = complete_outboxed id digest x d d' e in
      let (r2, h2, x2, c2) = mark_receipt_queued_lem out id receipt_id d' d'' k in
      let same : r0 ≡ r = cc (h0.0, h.0) in
      let stored : r1 ≡ r2 = cc (f, h2.0) in
      let context : r0.audit_context ≡ some c = ap (λ z. z.audit_context) same ∙ ctx in
      let stays : ¬ IsSpared r0 x =
        not-IsSpared r0 x c context (ap (λ z. is_audited z x) same ∙ a) in
      let none_waits : r1.audit_pending ≡ none = ap (λ z. z.audit_pending) stored ∙ x2.1 in
      let (z, filled, pending, state, y, audits) = o in
      elim audits [
        | inl n ↦ stays n.0
        | inr n ↦ absurd (let (c0, e0, has, l, waits, i) = n in cc (waits, none_waits))
      ]
