-- ===== src/Journal/Receipts/Scanning.antt =====
-- The scans of the directory keep every receipt.
use ppflight_agent.Prelude.{
  String, Bool, true, false, not, Option, none, some, [], ◌∷◌, ◌=ˢ◌, if◌then◌else◌,
}
use ppflight_agent.Prelude.Exec.{Result, ok, err, Exec, return, fail, Triple-state}
use ppflight_agent.Prelude.Disk.{quiet}
use ppflight_agent.Control.Command.{Command}
use ppflight_agent.Journal.Types.{
  JournalRecord, Entries, Journal, Outside, Err, io, operation_conflict, idempotency_conflict,
}
use ppflight_agent.Journal.Scans.{
  Tools, Used, scan, scan_identity, used_by, has_identity, identity_used, holds_unretired,
  resource_busy_locked, list_files,
}
use ppflight_agent.Journal.Records.{Lineage}
use ppflight_agent.Journal.Claim.{take_resource, lineage_of, unused_identity}
use ppflight_agent.Journal.{decode}
use ppflight_agent.Journal.Receipts.{
  HasReceipt, Keeps, return-Keeps, fail-Keeps, pure-Keeps, choose-Keeps, bind-Keeps, quiet-Keeps,
  state-Triple,
}
use ppflight_agent.Journal.Receipts.Recoveries.{list_files-Keeps}
use ppflight_agent.Journal.Types.{
  identity_invalid, resource_busy, operation_conflict, idempotency_conflict, lineage_invalid,
}
use ppflight_agent.Journal.Scans.{holds_resource, is_migration, operation_used, key_used}
use ppflight_agent.Journal.Claim.{no_lineage, has_lineage}
use ppflight_agent.Prelude.Text.{is_body_hash}
use ppflight_agent.Prelude.{◌&&◌}

module _ (out : Outside) (tools : Tools) where
  scan-Keeps :
      {A : Type 0} (test : JournalRecord → Exec Journal Err (Option A))
      → ((r : JournalRecord) → Keeps (test r))
      → (files : Entries) → Keeps (scan out tools test files)
  unfolding scan
  scan-Keeps test k [] = return-Keeps none
  scan-Keeps {A} test k ((name, content) ∷ rest) = bind-Keeps (quiet io) _ quiet-Keeps (λ _.
      bind-Keeps (λ d. (decode out (some content), d)) _
        (pure-Keeps (λ d. decode out (some content)))
        (λ r. bind-Keeps (test r) _ (k r) (go (scan-Keeps test k rest))))
    where
      go :
          Keeps (scan out tools test rest)
          → (o : Option A)
          → Keeps {A = Option A}
              (elim o [ some a ↦ return (some a) | none ↦ scan out tools test rest ])
      go h (some a) = return-Keeps (some a)
      go h none = h

  scan_identity-Keeps : (c : Command) → Keeps (scan_identity out tools c)
  unfolding scan_identity
  scan_identity-Keeps c =
      bind-Keeps (list_files out tools) _ (list_files-Keeps out tools) (
        scan-Keeps (λ r. return (used_by out tools c r))
          (λ r. return-Keeps (used_by out tools c r)))

  pub identity_used-Keeps : (c : Command) → Keeps (identity_used out tools c)
  unfolding identity_used
  identity_used-Keeps c =
      choose-Keeps (has_identity out tools c) (scan_identity out tools c) (fail identity_invalid)
        (scan_identity-Keeps c) (fail-Keeps identity_invalid)

  holds_unretired-Keeps :
      (key : String) (r : JournalRecord) → Keeps (holds_unretired out tools key r)
  unfolding holds_unretired
  holds_unretired-Keeps key r n =
      state-Triple (HasReceipt n) (HasReceipt n) (holds_unretired out tools key r)
        (λ d h. go d (holds_resource key r) (tools.retirement_committed d.files r) h)
    where
      go :
          (d : Journal) (b : Bool) (o : Result Err Bool)
          → HasReceipt n d
          → let e : Result Err (Option (Unit {0})) × Journal =
              if b
              then elim o [
                | err e ↦ (err e, d)
                | ok true ↦ (ok none, d)
                | ok false ↦ (ok (some tt), d)
              ]
              else (ok none, d) in
            HasReceipt n e.1
      go d true (err e) h = h
      go d true (ok true) h = h
      go d true (ok false) h = h
      go d false o h = h

  resource_busy-Keeps : (key : String) → Keeps (resource_busy_locked out tools key)
  unfolding resource_busy_locked
  resource_busy-Keeps key =
      bind-Keeps (list_files out tools) _ (list_files-Keeps out tools)
        (scan-Keeps (holds_unretired out tools key) (holds_unretired-Keeps key))

  pub take_resource-Keeps : (c : Command) (key : String) → Keeps (take_resource out tools c key)
  unfolding take_resource
  take_resource-Keeps c key n =
      state-Triple (HasReceipt n) (HasReceipt n) (take_resource out tools c key) (λ d h.
        let u = (resource_busy_locked out tools key d).1 in
        go u (is_migration c) (tools.migration_refused u.files c)
          (resource_busy_locked out tools key d).0
          (Triple-state (HasReceipt n) (HasReceipt n) (resource_busy_locked out tools key)
            (resource_busy-Keeps key n) d h))
    where
      go :
          (u : Journal) (b : Bool) (refused : Option Err) (busy : Result Err (Option (Unit {0})))
          → HasReceipt n u
          → let e : Result Err (Unit {0}) × Journal =
              if b then elim refused [ some e ↦ (err e, u) | none ↦ (ok tt, u) ] else elim busy [
                | err e ↦ (err e, u)
                | ok (some held) ↦ (err resource_busy, u)
                | ok none ↦ (ok tt, u)
              ] in
            HasReceipt n e.1
      go u true (some e) busy h = h
      go u true none busy h = h
      go u false refused (err e) h = h
      go u false refused (ok (some held)) h = h
      go u false refused (ok none) h = h

  pub lineage_of-Keeps : (c : Command) → Keeps (lineage_of out tools c)
  unfolding lineage_of
  lineage_of-Keeps c = go (has_lineage out tools c) (tools.lineage c)
    where
      go :
          (b : Bool) (o : Option Lineage)
          → Keeps {A = Lineage} (
              if not b then return (no_lineage out tools) else elim o [
                | none ↦ fail lineage_invalid
                | some l ↦
                    if c.action =ˢ "vm.clone" && not (is_body_hash l.config_sha256)
                    then fail lineage_invalid
                    else return l
              ])
      go false o = return-Keeps (no_lineage out tools)
      go true none = fail-Keeps lineage_invalid
      go true (some l) =
          choose-Keeps (c.action =ˢ "vm.clone" && not (is_body_hash l.config_sha256))
            (fail lineage_invalid) (return l) (fail-Keeps lineage_invalid) (return-Keeps l)

  pub unused_identity-Keeps : (o : Option Used) → Keeps (unused_identity out tools o)
  unused_identity-Keeps none = return-Keeps tt
  unused_identity-Keeps (some operation_used) = fail-Keeps operation_conflict
  unused_identity-Keeps (some key_used) = fail-Keeps idempotency_conflict
