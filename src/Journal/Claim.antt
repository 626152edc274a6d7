-- ===== src/Journal/Claim.antt =====
-- `Claim` and `ClaimWithAudit` of internal/control/journal.go: the durable intent to execute a command.
use ppflight_agent.Prelude.{
  ℕ, String, Bool, true, not, ◌&&◌, ◌||◌, Option, none, some, ◌=ˢ◌, if◌then◌else◌,
}
use ppflight_agent.Prelude.Text.{is_body_hash}
use ppflight_agent.Prelude.Exec.{Result, ok, err, Exec, ◌>>=◌, ◌>>◌, return, fail}
use ppflight_agent.Control.Command.{pos, Command, command_digest}
use ppflight_agent.Control.Actions.{resource_key, requires_approval}
use ppflight_agent.Journal.Types.{
  Receipt, AuditContext, JournalRecord, Journal, Outside, Err, not_exist, command_conflict,
  invalid_audit, operation_conflict, idempotency_conflict, resource_busy, resource_invalid,
  digest_invalid, lineage_invalid, id_unavailable,
}
use ppflight_agent.Journal.Audit.{event_of}
use ppflight_agent.Journal.Records.{Lineage, new_record, indeterminate_receipt}
use ppflight_agent.Journal.Scans.{
  Tools, Used, operation_used, key_used, is_migration, identity_used, resource_busy_locked,
}
use ppflight_agent.Journal.{read, write}

pub data Claimed : Type 0 where
  execute : Claimed
  duplicate : Receipt → Claimed

-- Actions with recovery markers of their own, which the same command may finish.
abbrev pub resumes : JournalRecord → Bool
resumes r = r.action =ˢ "vm.migrate-legacy-journal" || r.action =ˢ "vm.cloud-init-snippet.delete"

module _ (out : Outside) (tools : Tools) where
  -- The conflicts that keep a mutation from its resource.
  unfoldable pub take_resource : Command → String → Exec Journal Err Unit
  take_resource c key d =
      let (busy, u) = resource_busy_locked out tools key d in
      if is_migration c
      then elim (tools.migration_refused u.files c) [ some e ↦ (err e, u) | none ↦ (ok tt, u) ]
      else elim busy [
        | err e ↦ (err e, u)
        | ok (some held) ↦ (err resource_busy, u)
        | ok none ↦ (ok tt, u)
      ]

  abbrev pub no_lineage : Lineage
  no_lineage = record { config_sha256 = ""; template_ref = ""; vmid = pos 0 }

  abbrev pub has_lineage : Command → Bool
  has_lineage c = c.action =ˢ "vm.clone" || c.action =ˢ "vm.set-initial-resources"

  unfoldable pub lineage_of : Command → Exec Journal Err Lineage
  lineage_of c = if not (has_lineage c) then return no_lineage else elim (tools.lineage c) [
    | none ↦ fail lineage_invalid
    | some l ↦
        if c.action =ˢ "vm.clone" && not (is_body_hash l.config_sha256)
        then fail lineage_invalid
        else return l
  ]

  abbrev pub unused_identity : Option Used → Exec Journal Err Unit
  unused_identity none = return tt
  unused_identity (some operation_used) = fail operation_conflict
  unused_identity (some key_used) = fail idempotency_conflict

  -- The rest of `claim` for a command without a file.
  unfoldable pub claim_new :
      Command → ℕ → Option AuditContext → String → String → Exec Journal Err Claimed
  claim_new c now audit key digest = do
    used ← identity_used out tools c
    unused_identity used
    if requires_approval c.action then take_resource c key else return tt
    l ← lineage_of c
    write out c.command_id (new_record c now audit key digest l)
    return execute

  abbrev pub rewrite : Command → JournalRecord → Exec Journal Err JournalRecord
  rewrite c r = do write out c.command_id r; return r

  -- An audit context, and the event of a receipt that is there, for a record without one.
  unfoldable pub backfill :
      Command → JournalRecord → Option AuditContext → Exec Journal Err JournalRecord
  backfill c r none = return r
  backfill c r (some context) = elim r.audit_context [
    | some old ↦ return r
    | none ↦ elim r.receipt [
      | none ↦ rewrite c (record r { audit_context = some context })
      | some x ↦ elim (event_of out context x) [
        | none ↦ fail invalid_audit
        | some e ↦ rewrite c (record r { audit_context = some context; audit_pending = some e })
      ]
    ]
  ]

  abbrev pub interrupted : ℕ → JournalRecord → Receipt → JournalRecord
  interrupted now r x = record r {
    state = x.state;
    updated_at = now;
    receipt = some x;
    receipt_pending = true;
  }

  -- The write of a receipt, and of its event where the record has a context.
  unfoldable pub publish : String → JournalRecord → Receipt → Exec Journal Err Unit
  publish id r x = elim r.audit_context [
    | none ↦ write out id r
    | some context ↦ elim (event_of out context x) [
      | none ↦ fail invalid_audit
      | some e ↦ write out id (record r { audit_pending = some e })
    ]
  ]

  unfoldable pub redeliver : Command → ℕ → JournalRecord → Exec Journal Err Claimed
  redeliver c now r = do write out c.command_id (record r { updated_at = now }); return execute

  unfoldable pub interrupt : Command → ℕ → JournalRecord → Receipt → Exec Journal Err Claimed
  interrupt c now r x = do publish c.command_id (interrupted now r x) x; return (duplicate x)

  -- What happens to a claim that stands without a receipt.
  unfoldable pub settle_open :
      Command → ℕ → Option String → JournalRecord → Exec Journal Err Claimed
  settle_open c now new_id r =
      if resumes r || not r.mutating then redeliver c now r else elim new_id [
        | none ↦ fail id_unavailable
        | some id ↦ interrupt c now r (indeterminate_receipt c now id)
      ]

  unfoldable pub settle : Command → ℕ → Option String → JournalRecord → Exec Journal Err Claimed
  settle c now new_id r = elim r.receipt [
    | some x ↦ return (duplicate x)
    | none ↦ settle_open c now new_id r
  ]

  unfoldable pub claim_same :
      Command → ℕ → Option String → Option AuditContext → JournalRecord → Exec Journal Err Claimed
  claim_same c now new_id audit r = do r' ← backfill c r audit; settle c now new_id r'

  -- The rest of `claim` for a command with a file.
  unfoldable pub claim_existing :
      Command
      → ℕ
      → Option String
      → Option AuditContext
      → String
      → JournalRecord
      → Exec Journal Err Claimed
  claim_existing c now new_id audit digest r =
      if not (r.digest =ˢ digest) then fail command_conflict else claim_same c now new_id audit r

  unfoldable pub claim_read :
      Command
      → ℕ
      → Option String
      → Option AuditContext
      → String
      → String
      → Result Err JournalRecord
      → Exec Journal Err Claimed
  claim_read c now new_id audit key digest (ok r) = claim_existing c now new_id audit digest r
  claim_read c now new_id audit key digest (err not_exist) = claim_new c now audit key digest
  claim_read c now new_id audit key digest (err e) = fail e

  -- `claim`, with the ID that `protocol.NewID` has for a receipt
  unfoldable pub claim :
      Command → ℕ → Option String → Option AuditContext → Exec Journal Err Claimed
  claim c now new_id audit = elim (resource_key c) [
    | none ↦ fail resource_invalid
    | some key ↦
        let digest = command_digest tools.encoding c in
        if digest =ˢ "" then fail digest_invalid else λ d.
        let (r, u) = read out c.command_id d in claim_read c now new_id audit key digest r u
  ]
