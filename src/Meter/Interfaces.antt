-- ===== src/Meter/Interfaces.antt =====
-- `resolvePerNICCounters` of internal/meter/meter.go.
use ppflight_agent.Prelude.{
  ℕ, not, ◌||◌, Option, none, some, List, [], ◌∷◌, ◌++◌, ◌==◌, ◌=ˢ◌, if◌then◌else◌,
}
use ppflight_agent.Prelude.Text.{codes}
use ppflight_agent.Uploader.Response.{same_text, equal_fold, decimal}
use ppflight_agent.Meter.Types.{
  NicBinding, Assignment, Network, Guest, HostInterface, Snapshot, NicCounter, Library,
}
use ppflight_agent.Meter.Checks.{after_net}

-- The map of a guest's networks: a later one of the same name replaces an earlier one.
unfoldable pub find_network : List ℕ → List Network → Option Network
unfolding same_text
find_network name [] = none
find_network name (n ∷ ns) = elim (find_network name ns) [
  | some later ↦ some later
  | none ↦ if same_text n.interface name then some n else none
]

unfoldable pub find_device : List ℕ → List HostInterface → Option HostInterface
unfolding same_text
find_device name [] = none
find_device name (h ∷ hs) = elim (find_device name hs) [
  | some later ↦ some later
  | none ↦ if same_text h.device name then some h else none
]

-- strings.TrimPrefix(value, "net")
abbrev without_net : List ℕ → List ℕ
without_net value = elim (after_net value) [ some rest ↦ rest | none ↦ value ]

abbrev device_of : Guest → ℕ → List ℕ
device_of g index =
    codes (if g.guest_type =ˢ "lxc" then "veth" else "tap")
    ++ decimal 20 g.vmid []
    ++ codes "i"
    ++ decimal 20 index []

-- Linux receives what the guest sends, so ingress is what it transmits.
abbrev nic_of : Library → NicBinding → ℕ → ℕ → NicCounter
nic_of l b receive transmit = record {
  interface_ref = b.interface;
  canonical_mac = l.to_upper b.expected_mac;
  role = b.role;
  source = "pve-host-netdev";
  ingress = transmit;
  egress = receive;
}

unfoldable pub read_device : Library → NicBinding → Option HostInterface → Option NicCounter
read_device l b none = none
read_device l b (some h) = elim h.receive [
  | none ↦ none
  | some receive ↦ elim h.transmit [
    | none ↦ none
    | some transmit ↦ some (nic_of l b receive transmit)
  ]
]

unfoldable pub read_network :
    Library
    → List HostInterface
    → Guest
    → NicBinding
    → Option Network
    → Option ℕ
    → Option NicCounter
unfolding equal_fold find_device read_device
read_network l host g b (some n) (some index) =
    if not (equal_fold l.fold n.mac b.expected_mac) || not (index == n.index)
    then none
    else read_device l b (find_device (device_of g index) host)
read_network l host g b _ _ = none

unfoldable pub read_bindings :
    Library → List HostInterface → Guest → List NicBinding → Option (List NicCounter)
unfolding read_network find_network after_net
read_bindings l host g [] = some []
read_bindings l host g (b ∷ bs) =
    let rest = read_bindings l host g bs in
    if not b.metered
    then rest
    else elim (read_network l host g b (find_network b.interface g.networks)
        (l.atoi (without_net b.interface))) [
          | none ↦ none
          | some c ↦ elim rest [ none ↦ none | some cs ↦ some (c ∷ cs) ]
        ]

-- `resolvePerNICCounters`
unfoldable pub resolve : Library → Snapshot → Guest → Assignment → Option (List NicCounter)
unfolding read_bindings
resolve l snap g a = elim snap.host [
  | none ↦ none
  | some host ↦ elim a.nic_bindings [ [] ↦ none | b ∷ bs ↦ read_bindings l host g (b ∷ bs) ]
]
