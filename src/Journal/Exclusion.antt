-- ===== src/Journal/Exclusion.antt =====
-- When `Claim` of internal/control/journal.go lets a command execute.
use ppflight_agent.Journal.Firsts.{IsFirst, claim_new_lem}
use ppflight_agent.Prelude.{
  ℕ, String, ◌≡◌, refl, ap, sym, ◌∙◌, Bool, true, false, not, ◌||◌, ◌⊎◌, inl, inr, Option, none,
  some, ◌=ˢ◌, if◌then◌else◌,
}
use ppflight_agent.Prelude.Exec.{Result, ok, err, Exec, return, fail, bind_inversion}
use mathlib.Core.Path.{subst, subst₂}
use ppflight_agent.Journal.Claim.{publish, interrupted}
use ppflight_agent.Control.Command.{Command, command_digest}
use ppflight_agent.Control.Actions.{resource_key}
use ppflight_agent.Journal.Types.{
  Receipt, AuditContext, Event, JournalRecord, Journal, Outside, Err, not_exist, command_conflict,
  invalid_audit, digest_invalid, resource_invalid, id_unavailable,
}
use ppflight_agent.Journal.Entries.{find_entry}
use ppflight_agent.Journal.Audit.{event_of}
use ppflight_agent.Journal.Outbox.{Holds, read_inversion}
use ppflight_agent.Journal.Records.{indeterminate_receipt}
use ppflight_agent.Journal.Scans.{Tools}
use ppflight_agent.Journal.Claim.{
  Claimed, execute, duplicate, rewrite, backfill, redeliver, interrupt, resumes, settle_open,
  settle, claim_same, claim_existing, claim_read, claim,
}
use ppflight_agent.Journal.Receipts.Reads.{read-cases, decode-none}
use ppflight_agent.Journal.{read, write}

module _ (out : Outside) (tools : Tools) (c : Command) where
  -- The command has a record of its digest without a receipt, which may be executed again.
  pub record IsRepeat (d : Journal) : Type 0 where
    pub old : JournalRecord
    pub held : Holds out c.command_id old d
    pub same : (old.digest =ˢ command_digest tools.encoding c) ≡ true
    pub unfinished : old.receipt ≡ none
    pub repeats : (resumes old || not old.mutating) ≡ true

  -- What backfilling leaves as it was.
  abbrev Agrees : JournalRecord → JournalRecord → Type 0
  Agrees r s = (s.receipt ≡ r.receipt) × (s.action ≡ r.action) × (s.mutating ≡ r.mutating)

  rewrite-Agrees :
      (r s t : JournalRecord) (d d' : Journal)
      → Agrees r s
      → rewrite out tools c s d ≡ (ok t, d')
      → Agrees r t
  rewrite-Agrees r s t d d' g e =
      let (_, u, e1, k1) = bind_inversion (write out c.command_id s) (λ _. return s) d e in
      let same : s ≡ t = cc (ap (λ z. z.0) k1) in subst (Agrees r) same g

  return-Agrees :
      (r t : JournalRecord) (d d' : Journal)
      → (let o : Result Err JournalRecord × Journal = (ok r, d) in o ≡ (ok t, d'))
      → Agrees r t
  return-Agrees r t d d' e =
      let same : r ≡ t = cc (ap (λ z. z.0) e) in subst (Agrees r) same (refl, refl, refl)

  backfill-Agrees :
      (r t : JournalRecord) (audit : Option AuditContext) (d d' : Journal)
      → backfill out tools c r audit d ≡ (ok t, d')
      → Agrees r t
  unfolding backfill
  backfill-Agrees r t none d d' e = return-Agrees r t d d' e
  backfill-Agrees r t (some context) d d' e = go r.audit_context r.receipt e
    where
      made :
          (o : Option Event)
          → elim o as (λ _. Exec Journal Err JournalRecord) [
            | none ↦ fail invalid_audit
            | some e ↦
                rewrite out tools c
                  (record r { audit_context = some context; audit_pending = some e })
          ]
              d
            ≡ (ok t, d')
          → Agrees r t
      made none k = absurd (cc (ap (λ z. z.0) k))
      made (some event) k = rewrite-Agrees r _ t d d' (refl, refl, refl) k

      go :
          (a : Option AuditContext) (y : Option Receipt)
          → elim a as (λ _. Exec Journal Err JournalRecord) [
            | some old ↦ return r
            | none ↦ elim y [
              | none ↦ rewrite out tools c (record r { audit_context = some context })
              | some x ↦ elim (event_of out context x) [
                | none ↦ fail invalid_audit
                | some e ↦
                    rewrite out tools c
                      (record r { audit_context = some context; audit_pending = some e })
              ]
            ]
          ]
              d
            ≡ (ok t, d')
          → Agrees r t
      go (some old) y k = return-Agrees r t d d' k
      go none none k = rewrite-Agrees r _ t d d' (refl, refl, refl) k
      go none (some x) k = made (event_of out context x) k

  settle-execute :
      (now : ℕ) (new_id : Option String) (r : JournalRecord) (d d' : Journal)
      → settle out tools c now new_id r d ≡ (ok execute, d')
      → (r.receipt ≡ none) × ((resumes r || not r.mutating) ≡ true)
  unfolding settle settle_open interrupt
  settle-execute now new_id r d d' = go r.receipt (resumes r || not r.mutating) new_id refl refl
    where
      go :
          (y : Option Receipt) (b : Bool) (i : Option String)
          → r.receipt ≡ y
          → (resumes r || not r.mutating) ≡ b
          → elim y as (λ _. Exec Journal Err Claimed) [
            | some x ↦ return (duplicate x)
            | none ↦ if b then redeliver out tools c now r else elim i [
              | none ↦ fail id_unavailable
              | some id ↦ interrupt out tools c now r (indeterminate_receipt c now id)
            ]
          ]
              d
            ≡ (ok execute, d')
          → (r.receipt ≡ none) × ((resumes r || not r.mutating) ≡ true)
      go (some x) b i e f k = absurd (cc (ap (λ z. z.0) k))
      go none true i e f k = (e, f)
      go none false none e f k = absurd (cc (ap (λ z. z.0) k))
      go none false (some id) e f k =
          let x = indeterminate_receipt c now id in
          let (_, u, e1, k1) =
            bind_inversion (publish out tools c.command_id (interrupted out tools now r x) x)
              (λ _. return (duplicate x)) d k in
          absurd (cc (ap (λ z. z.0) k1))

  claim_existing-execute :
      (now : ℕ) (new_id : Option String) (audit : Option AuditContext) (digest : String)
      (r : JournalRecord) (d d' : Journal)
      → claim_existing out tools c now new_id audit digest r d ≡ (ok execute, d')
      → ((r.digest =ˢ digest) ≡ true) × (r.receipt ≡ none) × ((resumes r || not r.mutating) ≡ true)
  unfolding claim_existing claim_same
  claim_existing-execute now new_id audit digest r d d' = go (r.digest =ˢ digest) refl
    where
      go :
          (b : Bool)
          → (r.digest =ˢ digest) ≡ b
          → (if not b then fail command_conflict else claim_same out tools c now new_id audit r) d
            ≡ (ok execute, d')
          → ((r.digest =ˢ digest) ≡ true)
            × (r.receipt ≡ none)
            × ((resumes r || not r.mutating) ≡ true)
      go false s k = absurd (cc (ap (λ z. z.0) k))
      go true s k =
          let (t, u, e1, k1) =
            bind_inversion (backfill out tools c r audit) (settle out tools c now new_id) d k in
          let (receipt, action, mutating) = backfill-Agrees r t audit d u e1 in
          let (n, b) = settle-execute now new_id t u d' k1 in
          (
            s,
            sym receipt ∙ n,
            subst₂
                (λ a m.
                  (a =ˢ "vm.migrate-legacy-journal" || a =ˢ "vm.cloud-init-snippet.delete" || not m)
                  ≡ true)
                action mutating b,
          )

  claim_read-execute :
      (now : ℕ) (new_id : Option String) (audit : Option AuditContext) (key : String)
      (o : Result Err JournalRecord) (d u d' : Journal)
      → resource_key c ≡ some key
      → read out c.command_id d ≡ (o, u)
      → claim_read out tools c now new_id audit key (command_digest tools.encoding c) o u
        ≡ (ok execute, d')
      → IsFirst out tools c d.files d'.files ⊎ IsRepeat d
  unfolding claim_read
  claim_read-execute now new_id audit key (ok r) d u d' keyed e k =
      let (s, n, b) =
        claim_existing-execute now new_id audit (command_digest tools.encoding c) r u d' k in
      inr (record {
        old = r;
        held = (read_inversion out c.command_id d u r e).0;
        same = s;
        unfinished = n;
        repeats = b;
      })
  claim_read-execute now new_id audit key (err not_exist) d u d' keyed e k =
      let (o, same) = read-cases out c d in
      let absent : find_entry (out.path c.command_id) d.files ≡ none = elim o [
        | inl h ↦ absurd (cc (h, ap (λ z. z.0) e))
        | inr h ↦
            decode-none out c (find_entry (out.path c.command_id) d.files) (sym h ∙ ap (λ z. z.0) e)
      ] in
      let kept : u.files ≡ d.files = sym (ap (λ z. z.1.files) e) ∙ same in
      inl (
        subst (λ fs. IsFirst out tools c fs d'.files) kept
          (claim_new_lem out tools c now audit key execute u d' keyed
            (ap (λ fs. find_entry (out.path c.command_id) fs) kept ∙ absent) k))
  claim_read-execute now new_id audit key (err x) d u d' keyed e k = absurd (cc (ap (λ z. z.0) k))

  -- A claim that returns a command for execution has found no file of the command, or one with its digest
  -- and no receipt whose record only reads or has recovery markers of its own. In the first case its
  -- operation and idempotency key are unused, every other unfinished mutation of its resource is
  -- retired, if the command mutates and is no migration, and its record now holds the resource.
  pub claim-execute :
      (now : ℕ) (new_id : Option String) (audit : Option AuditContext) (d d' : Journal)
      → claim out tools c now new_id audit d ≡ (ok execute, d')
      → IsFirst out tools c d.files d'.files ⊎ IsRepeat d
  unfolding claim
  claim-execute now new_id audit d d' =
      go (resource_key c) (command_digest tools.encoding c =ˢ "") refl
    where
      go :
          (o : Option String) (b : Bool)
          → resource_key c ≡ o
          → elim o as (λ _. Exec Journal Err Claimed) [
            | none ↦ fail resource_invalid
            | some key ↦ if b then fail digest_invalid else λ d.
                let (r, u) = read out c.command_id d in
                claim_read out tools c now new_id audit key (command_digest tools.encoding c) r u
          ]
              d
            ≡ (ok execute, d')
          → IsFirst out tools c d.files d'.files ⊎ IsRepeat d
      go none b e k = absurd (cc (ap (λ z. z.0) k))
      go (some key) true e k = absurd (cc (ap (λ z. z.0) k))
      go (some key) false e k =
          claim_read-execute now new_id audit key (read out c.command_id d).0 d
            (read out c.command_id d).1 d' e refl k
