-- ===== src/Control/Actions.antt =====
-- The registry of actions of internal/control/types.go, and the resource keys of
-- internal/control/journal.go.
use ppflight_agent.Prelude.{
  String, Bool, true, false, not, ◌&&◌, ◌||◌, Option, none, some, List, [], ◌∷◌, ◌==◌, ◌=ˢ◌,
  if◌then◌else◌,
}
use ppflight_agent.Prelude.Text.{is_command_id, is_node_ref, decimal_text, concat}
use ppflight_agent.Control.Command.{is_positive, int_text, Identity, Command}

-- The scopes by name, and whether the action only reads.
pub record ActionSpec : Type 0 where
  pub cluster : Bool
  pub node : Bool
  pub vm : Bool
  pub read_only : Bool

abbrev pub guest_change : ActionSpec
guest_change = record { cluster = false; node = false; vm = true; read_only = false }

abbrev pub guest_read : ActionSpec
guest_read = record guest_change { read_only = true }

abbrev pub node_change : ActionSpec
node_change = record { cluster = false; node = true; vm = false; read_only = false }

-- `protocolActions`
abbrev pub protocol_actions : List (String × ActionSpec)
protocol_actions =
    ("pve.discover", record { cluster = true; node = true; vm = false; read_only = true })
    ∷ ("task.status", record { cluster = false; node = true; vm = false; read_only = true })
    ∷ ("vm.start", guest_change)
    ∷ ("vm.shutdown", guest_change)
    ∷ ("vm.stop", guest_change)
    ∷ ("vm.reboot", guest_change)
    ∷ ("vm.create", guest_change)
    ∷ ("vm.clone", guest_change)
    ∷ ("vm.set-initial-resources", guest_change)
    ∷ ("vm.migrate-legacy-journal", guest_change)
    ∷ ("vm.reinstall", guest_change)
    ∷ ("vm.set-resources", guest_change)
    ∷ ("vm.resize", guest_change)
    ∷ ("vm.set-disk-io", guest_change)
    ∷ ("vm.set-network", guest_change)
    ∷ ("vm.set-rate", guest_change)
    ∷ ("vm.verify-rate", guest_read)
    ∷ ("vm.set-cloud-init", guest_change)
    ∷ ("vm.cloud-init-snippet.delete", guest_change)
    ∷ ("vm.set-timezone", guest_change)
    ∷ ("vm.inspect-timezone", guest_read)
    ∷ ("vm.verify-delivery", guest_read)
    ∷ ("vm.delete", guest_change)
    ∷ ("vm.reset-password", guest_change)
    ∷ ("vm.suspend", guest_change)
    ∷ ("vm.resume", guest_change)
    ∷ ("vm.console.create-session", guest_change)
    ∷ ("vm.console.revoke-session", guest_change)
    ∷ ("snapshot.create", guest_change)
    ∷ ("snapshot.delete", guest_change)
    ∷ ("snapshot.rollback", guest_change)
    ∷ ("snapshot.list", guest_read)
    ∷ ("snapshot.get", guest_read)
    ∷ ("backup.create", guest_change)
    ∷ ("backup.delete", guest_change)
    ∷ ("backup.restore", guest_change)
    ∷ ("backup.list", guest_read)
    ∷ ("backup.get", guest_read)
    ∷ (
      "firewall.cluster.set-options",
      record { cluster = true; node = false; vm = false; read_only = false },
    )
    ∷ ("firewall.node.set-options", node_change)
    ∷ ("firewall.guest.set-options", guest_change)
    ∷ ("firewall.guest.verify-ipfilter", guest_read)
    ∷ ("firewall.guest.verify-ipfilter-sets", guest_read)
    ∷ ("firewall.guest.rules.list", guest_read)
    ∷ ("firewall.guest.rules.get", guest_read)
    ∷ ("firewall.guest.rules.verify", guest_read)
    ∷ ("firewall.rule.create", guest_change)
    ∷ ("firewall.rule.update", guest_change)
    ∷ ("firewall.rule.delete", guest_change)
    ∷ ("firewall.ipset.create", guest_change)
    ∷ ("firewall.ipset.update", guest_change)
    ∷ ("firewall.ipset.delete", guest_change)
    ∷ ("firewall.ipset.entry.create", guest_change)
    ∷ ("firewall.ipset.entry.update", guest_change)
    ∷ ("firewall.ipset.entry.delete", guest_change)
    ∷ ("agent.upgrade", node_change)
    ∷ []

unfoldable pub find_action : String → List (String × ActionSpec) → Option ActionSpec
find_action a [] = none
find_action a ((name, s) ∷ rest) =
    let later = find_action a rest in if name =ˢ a then some s else later

unfoldable pub spec_of : String → Option ActionSpec
unfolding find_action
spec_of a = find_action a protocol_actions

-- `KnownAction`
abbrev pub is_known_action : String → Bool
is_known_action a = elim (spec_of a) [ none ↦ false | some s ↦ true ]

abbrev pub in_scope : ActionSpec → String → Bool
in_scope s scope =
    if scope =ˢ "cluster"
    then s.cluster
    else if scope =ˢ "node"
    then s.node
    else scope =ˢ "vm" && s.vm

-- `validActionScope`
abbrev pub is_action_scope : String → String → Bool
is_action_scope a scope = elim (spec_of a) [ none ↦ false | some s ↦ in_scope s scope ]

-- `requiresApproval`
abbrev pub requires_approval : String → Bool
requires_approval a = elim (spec_of a) [ none ↦ true | some s ↦ not s.read_only ]

abbrev pub is_guest_type : String → Bool
is_guest_type g = g =ˢ "qemu" || g =ˢ "lxc"

abbrev pub names_vm : Identity → Bool
names_vm i =
    is_node_ref i.node_ref
    && is_positive i.vmid
    && not (i.generation == 0)
    && is_guest_type i.guest_type

abbrev pub cluster_key : Identity → String
cluster_key i = concat ("cluster:" ∷ i.cluster_ref ∷ [])

abbrev pub node_key : Identity → String
node_key i = concat ("node:" ∷ i.cluster_ref ∷ ":" ∷ i.node_ref ∷ [])

abbrev pub vm_key : Identity → String
vm_key i = concat (
    "vm:"
    ∷ i.cluster_ref
    ∷ ":"
    ∷ i.guest_type
    ∷ ":"
    ∷ int_text i.vmid
    ∷ ":"
    ∷ decimal_text i.generation
    ∷ [])

-- `journalResourceKey`, without the text of an error
unfoldable pub resource_key : Command → Option String
resource_key c =
    let i = c.identity in
    if not (is_command_id i.cluster_ref) || not (is_action_scope c.action c.scope)
    then none
    else if c.scope =ˢ "cluster"
    then some (cluster_key i)
    else if c.scope =ˢ "node"
    then if is_node_ref i.node_ref then some (node_key i) else none
    else if c.scope =ˢ "vm"
    then if names_vm i then some (vm_key i) else none
    else none
