-- ===== src/Meter/Types.antt =====
-- The data of internal/meter/meter.go, and what it reads of internal/inventory, internal/observation
-- and internal/protocol. Times are nanoseconds with 0 for the zero time; a text that is cut or
-- compared by case is a list of code points.
use ppflight_agent.Prelude.{ℕ, String, Bool, Option, List}
use ppflight_agent.Prelude.Disk.{Disk}
use ppflight_agent.Prelude.Exec.{Exec}

-- The texts of a billing state.
pub data Billing : Type 0 where
  disabled shadow active unknown : Billing

pub record NicBinding : Type 0 where
  pub interface : List ℕ
  pub role : String
  pub metered : Bool
  pub expected_mac : List ℕ

pub record Assignment : Type 0 where
  pub service_ref : String
  pub cluster_ref : String
  pub node_ref : String
  pub vmid : ℕ
  pub generation : ℕ
  pub instance_uuid : String
  pub guest_type : String
  pub billing : Billing
  pub cutover_at : Option ℕ
  pub nic_bindings : List NicBinding

pub record Network : Type 0 where
  pub index : ℕ
  pub interface : List ℕ
  pub mac : List ℕ

pub record Guest : Type 0 where
  pub vmid : ℕ
  pub guest_type : String
  pub node : String
  pub template : Bool
  pub is_available : Bool
  pub ingress : Option ℕ
  pub egress : Option ℕ
  pub networks : List Network

-- A host interface; a counter whose text is no uint64 is none.
pub record HostInterface : Type 0 where
  pub device : List ℕ
  pub receive : Option ℕ
  pub transmit : Option ℕ

pub record Snapshot : Type 0 where
  pub observed_at : ℕ
  pub guests : List Guest
  pub host : Option (List HostInterface)

pub record NicCounter : Type 0 where
  pub interface_ref : List ℕ
  pub canonical_mac : List ℕ
  pub role : String
  pub source : String
  pub ingress : ℕ
  pub egress : ℕ

pub record UsageRecord : Type 0 where
  pub service_ref : String
  pub cluster_ref : String
  pub node_ref : String
  pub vmid : ℕ
  pub generation : ℕ
  pub instance_uuid : String
  pub guest_type : String
  pub event_id : String
  pub counter_epoch : String
  pub sequence : ℕ
  pub source : String
  pub interface_ref : List ℕ
  pub canonical_mac : List ℕ
  pub network_role : String
  pub metered : Bool
  pub billing : Billing
  pub cutover_at : Option ℕ
  pub observed_at : ℕ
  pub ingress : ℕ
  pub egress : ℕ

pub record UsageBatch : Type 0 where
  pub schema_version : ℕ
  pub batch_id : String
  pub agent_ref : String
  pub collector_ref : String
  pub source_ref : String
  pub cluster_ref : String
  pub mode : String
  pub sequence : ℕ
  pub observed_at : ℕ
  pub events : List UsageRecord

pub record CounterState : Type 0 where
  pub service_ref : String
  pub generation : ℕ
  pub instance_uuid : String
  pub interface_ref : List ℕ
  pub canonical_mac : List ℕ
  pub source : String
  pub counter_epoch : String
  pub ingress : ℕ
  pub egress : ℕ
  pub observed_at : ℕ

-- The map of counters is an association list.
pub record MeterState : Type 0 where
  pub version : ℕ
  pub next_batch_sequence : ℕ  -- uint64
  pub next_event_sequence : ℕ  -- uint64
  pub counters : List (List ℕ × CounterState)

pub record Transaction : Type 0 where
  pub version : ℕ
  pub batch : UsageBatch
  pub new_state : MeterState

-- The two files; each is absent, or does not decode to a document with counters, or does.
pub record Files : Type 0 where
  pub state_file : Option (Option MeterState)
  pub txn_file : Option (Option Transaction)

pub record Config : Type 0 where
  pub directory : String
  pub mode : String
  pub agent_ref : String
  pub collector_ref : String
  pub source_ref : String
  pub cluster_ref : String

-- The Go interface `Queue`, whose item and flag are not read here.
pub record QueueApi (W : Type 0) : Type 1 where
  pub Error : Type 0
  pub enqueue : String → List ℕ → Exec W Error Unit

-- What the package takes from the standard library.
pub record Library : Type 0 where
  pub atoi : List ℕ → Option ℕ  -- strconv.Atoi, for a number that is not negative
  pub fold : ℕ → ℕ  -- simple case folding
  pub to_upper : List ℕ → List ℕ
  pub parse_mac : List ℕ → Option (List ℕ)
  pub sort : List Guest → List Guest  -- sort.Slice, by guest type and VMID
  pub marshal : UsageBatch → List ℕ

-- The manager with its files, its queue, and what NewID is to answer.
pub record Meter (W : Type 0) : Type 0 where
  pub state : MeterState
  pub disk : Disk Files
  pub queue : W
  pub ids : List (Option String)

-- The state that `Observe` builds beside the manager's own.
pub record Draft : Type 0 where
  pub records : List UsageRecord
  pub state : MeterState
  pub ids : List (Option String)

pub data Err : Type 0 where
  invalid_config corrupt io no_id invalid_batch queue_failed : Err
