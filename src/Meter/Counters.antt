-- ===== src/Meter/Counters.antt =====
-- The loop of `Observe` in internal/meter/meter.go, with `appendUsageRecord`. `assigned` is the lookup of internal/inventory by cluster, type and VMID.
use ppflight_agent.Prelude.{
  ℕ, ◌+◌, String, Bool, true, false, not, ◌&&◌, Option, none, some, List, [], ◌∷◌, ◌++◌, ltb, leb,
  ◌==◌, ◌=ˢ◌, if◌then◌else◌,
}
use ppflight_agent.Prelude.Text.{codes}
use ppflight_agent.Prelude.Exec.{ok, err, Exec, ◌>>=◌, ◌>>◌, return, modify, branch}
use ppflight_agent.Store.Types.{u64}
use ppflight_agent.Uploader.Response.{same_text, decimal, is_empty}
use ppflight_agent.Meter.Types.{
  Billing, disabled, shadow, NicBinding, Assignment, Guest, Snapshot, NicCounter, UsageRecord,
  CounterState, MeterState, Config, Library, Draft, Err, no_id,
}
use ppflight_agent.Meter.Interfaces.{resolve}

abbrev pub bump : MeterState → MeterState
bump st = record st { next_batch_sequence = u64 (st.next_batch_sequence + 1) }

-- `Assignment.Key`, and the interface after it
abbrev pub counter_key : Assignment → NicCounter → List ℕ
counter_key a c =
    codes a.cluster_ref
    ++ codes "/"
    ++ codes a.guest_type
    ++ codes "/"
    ++ decimal 20 a.vmid []
    ++ codes "/"
    ++ decimal 20 a.generation []
    ++ (if is_empty c.interface_ref then [] else codes "/" ++ c.interface_ref)

unfoldable pub find_counter : List ℕ → List (List ℕ × CounterState) → Option CounterState
unfolding same_text
find_counter key [] = none
find_counter key ((k, v) ∷ rest) =
    let later = find_counter key rest in if same_text k key then some v else later

unfoldable pub put_counter :
    List ℕ → CounterState → List (List ℕ × CounterState) → List (List ℕ × CounterState)
unfolding same_text
put_counter key c [] = (key, c) ∷ []
put_counter key c ((k, v) ∷ rest) =
    let later = put_counter key c rest in
    if same_text k key then (key, c) ∷ rest else (k, v) ∷ later

-- The counter goes on where it was: same identity, and nothing went down.
unfoldable pub is_continued : CounterState → Assignment → NicCounter → Bool
unfolding same_text
is_continued p a c =
    p.service_ref =ˢ a.service_ref
    && p.instance_uuid =ˢ a.instance_uuid
    && p.generation == a.generation
    && same_text p.interface_ref c.interface_ref
    && same_text p.canonical_mac c.canonical_mac
    && p.source =ˢ c.source
    && leb p.ingress c.ingress
    && leb p.egress c.egress

abbrev pub take_id : List (Option String) → Exec Draft Err String
take_id [] d = (err no_id, d)
take_id (none ∷ ids) d = (err no_id, record d { ids = ids })
take_id (some id ∷ ids) d = (ok id, record d { ids = ids })

-- `protocol.NewID`
unfoldable pub new_id : Exec Draft Err String
new_id d = take_id d.ids d

unfoldable pub choose_epoch : Option CounterState → Assignment → NicCounter → Exec Draft Err String
unfolding is_continued
choose_epoch none a c = new_id
choose_epoch (some p) a c = branch (λ d. is_continued p a c) (return p.counter_epoch) new_id

abbrev pub usage_of :
    Assignment → String → ℕ → Billing → NicCounter → String → String → ℕ → UsageRecord
usage_of a node at billing c epoch event sequence = record {
  service_ref = a.service_ref;
  cluster_ref = a.cluster_ref;
  node_ref = node;
  vmid = a.vmid;
  generation = a.generation;
  instance_uuid = a.instance_uuid;
  guest_type = a.guest_type;
  event_id = event;
  counter_epoch = epoch;
  sequence = sequence;
  source = c.source;
  interface_ref = c.interface_ref;
  canonical_mac = c.canonical_mac;
  network_role = c.role;
  metered = not (is_empty c.interface_ref);
  billing = billing;
  cutover_at = a.cutover_at;
  observed_at = at;
  ingress = c.ingress;
  egress = c.egress;
}

abbrev pub counter_of : Assignment → ℕ → NicCounter → String → CounterState
counter_of a at c epoch = record {
  service_ref = a.service_ref;
  generation = a.generation;
  instance_uuid = a.instance_uuid;
  interface_ref = c.interface_ref;
  canonical_mac = c.canonical_mac;
  source = c.source;
  counter_epoch = epoch;
  ingress = c.ingress;
  egress = c.egress;
  observed_at = at;
}

abbrev pub push_usage :
    Assignment → String → ℕ → Billing → NicCounter → String → String → Draft → Draft
push_usage a node at billing c epoch event d =
    let n = u64 (d.state.next_event_sequence + 1) in
    record d {
      records = d.records ++ usage_of a node at billing c epoch event n ∷ [];
      state = record d.state {
        next_event_sequence = n;
        counters = put_counter (counter_key a c) (counter_of a at c epoch) d.state.counters;
      };
    }

-- `appendUsageRecord`
unfoldable pub append_usage : Assignment → String → ℕ → Billing → NicCounter → Exec Draft Err Unit
unfolding choose_epoch new_id
append_usage a node at billing c = do
  epoch ← λ d. choose_epoch (find_counter (counter_key a c) d.state.counters) a c d
  event ← new_id
  modify (push_usage a node at billing c epoch event)

unfoldable pub append_all :
    Assignment → String → ℕ → Billing → List NicCounter → Exec Draft Err Unit
append_all a node at billing [] = return tt
append_all a node at billing (c ∷ cs) = do
  append_usage a node at billing c
  append_all a node at billing cs

-- `AggregateMeteringCapability().Supported`
unfoldable pub is_aggregate_supported : List NicBinding → Bool
is_aggregate_supported (b ∷ []) = b.role =ˢ "public" && b.metered
is_aggregate_supported _ = false

-- Billing is shadow outside production and before the cutover.
unfoldable pub billing_of : Config → ℕ → Assignment → Billing
billing_of c at a = if not (c.mode =ˢ "production") then shadow else elim a.cutover_at [
  | none ↦ shadow
  | some cutover ↦ if ltb at cutover then shadow else a.billing
]

abbrev pub aggregate_billing : Assignment → Billing → Billing
aggregate_billing a billing = if is_aggregate_supported a.nic_bindings then billing else shadow

abbrev aggregate_of : ℕ → ℕ → NicCounter
aggregate_of ingress egress = record {
  interface_ref = [];
  canonical_mac = [];
  role = "";
  source = "pve-cluster-resources";
  ingress = ingress;
  egress = egress;
}

-- The fallback on the whole guest's counters.
unfoldable pub append_aggregate :
    Assignment → String → ℕ → Billing → Bool → Option ℕ → Option ℕ → Exec Draft Err Unit
append_aggregate a node at billing true (some ingress) (some egress) =
    append_usage a node at (aggregate_billing a billing) (aggregate_of ingress egress)
append_aggregate a node at billing _ _ _ = return tt

abbrev pub node_of : Assignment → Guest → String
node_of a g = if a.node_ref =ˢ "" then g.node else a.node_ref

unfoldable pub append_resolved :
    Config → ℕ → Guest → Assignment → Option (List NicCounter) → Exec Draft Err Unit
append_resolved c at g a (some nics) = append_all a (node_of a g) at (billing_of c at a) nics
append_resolved c at g a none =
    append_aggregate a (node_of a g) at (billing_of c at a) g.is_available g.ingress g.egress

abbrev is_disabled : Billing → Bool
is_disabled disabled = true
is_disabled _ = false

unfoldable pub observe_assigned :
    Library → Config → Snapshot → Guest → Option Assignment → Exec Draft Err Unit
observe_assigned l c snap g none = return tt
observe_assigned l c snap g (some a) =
    if is_disabled a.billing
    then return tt
    else append_resolved c snap.observed_at g a (resolve l snap g a)

-- The loop over the sorted guests.
unfoldable pub observe_guests :
    Library → Config → (Guest → Option Assignment) → Snapshot → List Guest → Exec Draft Err Unit
observe_guests l c assigned snap [] = return tt
observe_guests l c assigned snap (g ∷ gs) = do
  if g.template then return tt else observe_assigned l c snap g (assigned g)
  observe_guests l c assigned snap gs
