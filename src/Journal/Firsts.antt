-- ===== src/Journal/Firsts.antt =====
-- The first claim of a command in internal/control/journal.go.
use ppflight_agent.Prelude.{
  ℕ, String, ◌≡◌, refl, ap, sym, ◌∙◌, Bool, true, false, Option, none, some, if◌then◌else◌,
}
use ppflight_agent.Prelude.Exec.{Result, ok, err, return, bind_inversion}
use mathlib.Core.Path.{subst}
use ppflight_agent.Control.Command.{Command, command_digest}
use ppflight_agent.Control.Actions.{resource_key, requires_approval}
use ppflight_agent.Journal.Types.{
  received, AuditContext, JournalRecord, Entries, Journal, Outside, Err, resource_busy,
}
use ppflight_agent.Journal.Entries.{find_entry, find-put}
use ppflight_agent.Journal.Outbox.{write_inversion}
use ppflight_agent.Journal.Records.{new_record}
use ppflight_agent.Journal.Scans.{
  Tools, Used, operation_used, key_used, is_migration, identity_used, resource_busy_locked,
}
use ppflight_agent.Journal.Claim.{Claimed, take_resource, lineage_of, unused_identity, claim_new}
use ppflight_agent.Journal.Locks.{
  AllPass, IsUnused, IsReleased, identity_used-none, resource_busy-none,
}
use ppflight_agent.Journal.{write}

module _ (out : Outside) (tools : Tools) (c : Command) where
  -- The command has no file, its operation and key are unused, and no other record holds its resource
  -- if it mutates it; afterwards its record holds the resource.
  pub record IsFirst (before now : Entries) : Type 0 where
    pub key : String
    pub keyed : resource_key c ≡ some key
    pub absent : find_entry (out.path c.command_id) before ≡ none
    pub unclaimed : AllPass out tools (IsUnused out tools c) before
    pub free :
        requires_approval c.action ≡ true
        → is_migration c ≡ false
        → AllPass out tools (IsReleased out tools before key) before
    pub written : JournalRecord
    pub recorded : find_entry (out.path c.command_id) now ≡ some (some written)
    pub holds : written.resource_key ≡ key
    pub waits : written.state ≡ received
    pub mutates : written.mutating ≡ requires_approval c.action
    pub same : written.digest ≡ command_digest tools.encoding c

  take_resource_lem :
      (key : String) (d d' : Journal)
      → take_resource out tools c key d ≡ (ok tt, d')
      → is_migration c ≡ false
      → AllPass out tools (IsReleased out tools d.files key) d.files
  unfolding take_resource
  take_resource_lem key d d' e m =
      go (is_migration c) (resource_busy_locked out tools key d).0 refl e m
    where
      u : Journal
      u = (resource_busy_locked out tools key d).1

      go :
          (b : Bool) (o : Result Err (Option (Unit {0})))
          → (resource_busy_locked out tools key d).0 ≡ o
          → (let e : Result Err (Unit {0}) × Journal =
                if b
                then elim (tools.migration_refused u.files c) [
                  | some e ↦ (err e, u)
                  | none ↦ (ok tt, u)
                ]
                else elim o [
                  | err e ↦ (err e, u)
                  | ok (some held) ↦ (err resource_busy, u)
                  | ok none ↦ (ok tt, u)
                ] in
              e ≡ (ok tt, d'))
          → b ≡ false
          → AllPass out tools (IsReleased out tools d.files key) d.files
      go true o s k f = absurd (cc)
      go false (err x) s k f = absurd (cc (ap (λ z. z.0) k))
      go false (ok (some held)) s k f = absurd (cc (ap (λ z. z.0) k))
      go false (ok none) s k f = (resource_busy-none out tools key d u (ap (λ o. (o, u)) s)).1

  unused_identity_lem :
      (o : Option Used) (d d' : Journal)
      → unused_identity out tools o d ≡ (ok tt, d')
      → (o ≡ none) × (d'.files ≡ d.files)
  unused_identity_lem none d d' e = (refl, ap (λ z. z.1.files) (sym e))
  unused_identity_lem (some operation_used) d d' e = absurd (cc (ap (λ z. z.0) e))
  unused_identity_lem (some key_used) d d' e = absurd (cc (ap (λ z. z.0) e))

  pub claim_new_lem :
      (now : ℕ) (audit : Option AuditContext) (key : String) (a : Claimed) (d d' : Journal)
      → resource_key c ≡ some key
      → find_entry (out.path c.command_id) d.files ≡ none
      → claim_new out tools c now audit key (command_digest tools.encoding c) d ≡ (ok a, d')
      → IsFirst d.files d'.files
  unfolding claim_new
  claim_new_lem now audit key a d d' keyed absent e =
      let (o, u1, e1, k1) = bind_inversion (identity_used out tools c) _ d e in
      let (_, u2, e2, k2) = bind_inversion (unused_identity out tools o) _ u1 k1 in
      let (_, u3, e3, k3) =
        bind_inversion
          (if requires_approval c.action then take_resource out tools c key else return tt) _ u2
          k2 in
      let (l, u4, e4, k4) = bind_inversion (lineage_of out tools c) _ u3 k3 in
      let (_, u5, e5, k5) =
        bind_inversion
          (write out c.command_id (new_record c now audit key (command_digest tools.encoding c) l))
          _ u4 k4 in
      let (n, s2) = unused_identity_lem o u1 u2 e2 in
      let (s1, unclaimed) = identity_used-none out tools c d u1 (e1 ∙ ap (λ o. (ok o, u1)) n) in
      let r : JournalRecord = new_record c now audit key (command_digest tools.encoding c) l in
      let stored : d'.files ≡ u5.files = ap (λ z. z.1.files) (sym k5) in
      record {
        key = key;
        keyed = keyed;
        absent = absent;
        unclaimed = unclaimed;
        free = λ p m.
            subst (λ fs. AllPass out tools (IsReleased out tools fs key) fs) (s2 ∙ s1)
              (take_resource_lem key u2 u3 (taken p u2 u3 e3) m);
        written = r;
        recorded =
            ap (λ f. find_entry (out.path c.command_id) f)
              (stored ∙ write_inversion out c.command_id u4 u5 r e5)
            ∙ find-put (out.path c.command_id) r u4.files;
        holds = refl;
        waits = refl;
        mutates = refl;
        same = refl;
      }
    where
      taken :
          requires_approval c.action ≡ true
          → (u v : Journal)
          → (if requires_approval c.action then take_resource out tools c key else return tt) u
            ≡ (ok tt, v)
          → take_resource out tools c key u ≡ (ok tt, v)
      taken p u v k =
          ap (λ b. (if b then take_resource out tools c key else return tt) u) (sym p) ∙ k
