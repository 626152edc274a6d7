-- ===== src/Meter/Checks.antt =====
-- `UsageBatch.Validate` of internal/protocol/protocol.go.
use ppflight_agent.Prelude.{
  ℕ, ◌%◌, Bool, true, false, not, ◌&&◌, ◌||◌, Option, none, some, List, [], ◌∷◌, ◌++◌, ltb, leb,
  ◌==◌, ◌=ˢ◌, if◌then◌else◌, length,
}
use ppflight_agent.Prelude.Text.{codes}
use ppflight_agent.Uploader.Response.{same_text, decimal, is_empty}
use ppflight_agent.Meter.Types.{Billing, shadow, active, UsageRecord, UsageBatch, Library}

-- strings.HasPrefix(value, "net"), and what follows it
unfoldable pub after_net : List ℕ → Option (List ℕ)
after_net (a ∷ b ∷ c ∷ rest) = if a == b'n' && b == b'e' && c == b't' then some rest else none
after_net _ = none

abbrev pub is_active : Billing → Bool
is_active active = true
is_active _ = false

abbrev pub is_shadow : Billing → Bool
is_shadow shadow = true
is_shadow _ = false

-- A MAC address of six octets, unicast and not zero.
abbrev is_unicast : List ℕ → Bool
is_unicast (a ∷ b ∷ c ∷ d ∷ e ∷ f ∷ []) =
    a % 2 == 0
    && (not (a == 0)
        || not (b == 0)
        || not (c == 0)
        || not (d == 0)
        || not (e == 0)
        || not (f == 0))
is_unicast _ = false

module _ (l : Library) where
  -- `validUsageInterface`
  unfoldable pub is_usage_interface : List ℕ → Bool
  unfolding after_net same_text
  is_usage_interface value = elim (after_net value) [
    | none ↦ false
    | some digits ↦
        if ltb (length value) 4 || ltb 5 (length value) then false else elim (l.atoi digits) [
          | none ↦ false
          | some index ↦ leb index 31 && same_text value (codes "net" ++ decimal 20 index [])
        ]
  ]

  -- `validUsageMAC`
  unfoldable pub is_usage_mac : List ℕ → Bool
  unfolding same_text
  is_usage_mac value =
      if is_empty value || not (same_text value (l.to_upper value))
      then false
      else elim (l.parse_mac value) [ none ↦ false | some octets ↦ is_unicast octets ]

  -- The identity of a per-interface event, or of an aggregate one.
  unfoldable pub is_usage_identity : UsageRecord → Bool
  unfolding is_usage_interface is_usage_mac
  is_usage_identity e =
      if not (is_empty e.interface_ref)
      then is_usage_interface e.interface_ref
        && is_usage_mac e.canonical_mac
        && e.network_role =ˢ "public"
        && e.metered
        && e.source =ˢ "pve-host-netdev"
      else is_empty e.canonical_mac
        && e.network_role =ˢ ""
        && not e.metered
        && e.source =ˢ "pve-cluster-resources"

  unfoldable pub is_usage_event : UsageBatch → UsageRecord → Bool
  unfolding is_usage_identity
  is_usage_event b e =
      not (e.service_ref =ˢ "")
      && e.cluster_ref =ˢ b.cluster_ref
      && not (e.vmid == 0)
      && not (e.generation == 0)
      && not (e.instance_uuid =ˢ "")
      && not (e.event_id =ˢ "")
      && not (e.counter_epoch =ˢ "")
      && not (e.sequence == 0)
      && not (e.observed_at == 0)
      && (e.guest_type =ˢ "qemu" || e.guest_type =ˢ "lxc")
      && (is_shadow e.billing || is_active e.billing)
      && (b.mode =ˢ "production" || not (is_active e.billing))
      && is_usage_identity e

  unfoldable pub all_events : UsageBatch → List UsageRecord → Bool
  unfolding is_usage_event
  all_events b [] = true
  all_events b (e ∷ es) = is_usage_event b e && all_events b es

  -- `Validate`; the schema version is 1.
  unfoldable pub is_valid_batch : UsageBatch → Bool
  unfolding all_events
  is_valid_batch b =
      b.schema_version == 1
      && not (b.batch_id =ˢ "")
      && not (b.agent_ref =ˢ "")
      && not (b.collector_ref =ˢ "")
      && not (b.source_ref =ˢ "")
      && not (b.cluster_ref =ˢ "")
      && not (b.observed_at == 0)
      && not (length b.events == 0)
      && (b.mode =ˢ "test" || b.mode =ˢ "production")
      && all_events b b.events
