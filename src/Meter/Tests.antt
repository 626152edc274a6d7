-- ===== src/Meter/Tests.antt =====
-- One guest of an active assignment, measured in production after its cutover.
use ppflight_agent.Prelude.{ℕ, String, ◌≡◌, refl, true, false, none, some, Option, List, [], ◌∷◌}
use ppflight_agent.Prelude.Text.{codes}
use ppflight_agent.Prelude.Exec.{ok}
use ppflight_agent.Prelude.Disk.{reliable, quiet, syscall, atomic_write}
use ppflight_agent.Uploader.Response.{same_text, equal_fold}
use ppflight_agent.Meter.Types.{
  active, Assignment, Guest, Snapshot, UsageRecord, UsageBatch, Config, QueueApi, Library, Meter,
}
use ppflight_agent.Meter.Checks.{
  after_net, is_usage_interface, is_usage_mac, is_usage_identity, is_usage_event, all_events,
  is_valid_batch,
}
use ppflight_agent.Meter.Counters.{
  find_counter, put_counter, is_continued, new_id, choose_epoch, append_usage, append_all,
  is_aggregate_supported, billing_of, append_aggregate, append_resolved, observe_assigned,
  observe_guests,
}
use ppflight_agent.Meter.Interfaces.{
  find_network, find_device, read_device, read_network, read_bindings, resolve,
}
use ppflight_agent.Meter.Billing.{AllBillable, observe_guests-billable}
use ppflight_agent.Meter.Recovery.{interrupted, recovered, recover_completes}
use ppflight_agent.Meter.Types.{Transaction}
use ppflight_agent.Meter.Commit.{Published, observe_committed}
use ppflight_agent.Meter.{
  empty_state, on_disk, write_state, write_txn, remove_txn, sync_directory, enqueue_batch, finish,
  recover, recover_content, commit, name_batch, publish, record_snapshot, observe, draft_from,
}

abbrev mac : List ℕ
mac = codes "02:00:00:00:00:01"

abbrev tools : Library
tools = record {
  atoi = λ digits. some 0;
  fold = λ c. c;
  to_upper = λ cs. cs;
  parse_mac = λ cs. some (2 ∷ 0 ∷ 0 ∷ 0 ∷ 0 ∷ 1 ∷ []);
  sort = λ gs. gs;
  marshal = λ b. 1 ∷ [];
}

abbrev config : Config
config = record {
  directory = "/var/lib/meter";
  mode = "production";
  agent_ref = "agent";
  collector_ref = "collector";
  source_ref = "source";
  cluster_ref = "c1";
}

abbrev assignment : Assignment
assignment = record {
  service_ref = "service";
  cluster_ref = "c1";
  node_ref = "";
  vmid = 7;
  generation = 1;
  instance_uuid = "instance";
  guest_type = "qemu";
  billing = active;
  cutover_at = some 40;
  nic_bindings =
      record { interface = codes "net0"; role = "public"; metered = true; expected_mac = mac } ∷ [];
}

abbrev guest : Guest
guest = record {
  vmid = 7;
  guest_type = "qemu";
  node = "pve1";
  template = false;
  is_available = true;
  ingress = none;
  egress = none;
  networks = record { index = 0; interface = codes "net0"; mac = mac } ∷ [];
}

abbrev snapshot : Snapshot
snapshot = record {
  observed_at = 50;
  guests = guest ∷ [];
  host = some (record { device = codes "tap7i0"; receive = some 10; transmit = some 20 } ∷ []);
}

-- A queue that keeps the identifiers of what it takes.
abbrev log : QueueApi (List String)
log = record { Error = Unit; enqueue = λ id payload w. (ok tt, id ∷ w) }

abbrev start : Meter (List String)
start = record {
  state = empty_state;
  disk = reliable (record { state_file = none; txn_file = none });
  queue = [];
  ids = some "epoch" ∷ some "event" ∷ some "batch" ∷ [];
}

abbrev event : UsageRecord
event = record {
  service_ref = "service";
  cluster_ref = "c1";
  node_ref = "pve1";
  vmid = 7;
  generation = 1;
  instance_uuid = "instance";
  guest_type = "qemu";
  event_id = "event";
  counter_epoch = "epoch";
  sequence = 1;
  source = "pve-host-netdev";
  interface_ref = codes "net0";
  canonical_mac = mac;
  network_role = "public";
  metered = true;
  billing = active;
  cutover_at = some 40;
  observed_at = 50;
  ingress = 20;
  egress = 10;
}

abbrev batch : UsageBatch
batch = record {
  schema_version = 1;
  batch_id = "batch";
  agent_ref = "agent";
  collector_ref = "collector";
  source_ref = "source";
  cluster_ref = "c1";
  mode = "production";
  sequence = 1;
  observed_at = 50;
  events = event ∷ [];
}

abbrev assigned : Guest → Option Assignment
assigned g = some assignment

observe_computes :
    observe log tools config assigned snapshot start
    ≡ (ok (some batch), (observe log tools config assigned snapshot start).1)
unfolding observe record_snapshot publish name_batch commit finish enqueue_batch recover
    recover_content sync_directory remove_txn write_txn write_state on_disk observe_guests
    observe_assigned append_resolved append_aggregate billing_of is_aggregate_supported append_all
    append_usage choose_epoch new_id is_continued resolve read_bindings read_network read_device
    find_device find_network put_counter find_counter is_valid_batch all_events is_usage_event
    is_usage_identity is_usage_mac is_usage_interface after_net same_text equal_fold quiet syscall
    atomic_write
observe_computes = refl

observe_committed_example :
    Published log tools config (some batch) (observe log tools config assigned snapshot start).1
observe_committed_example =
    observe_committed log tools config assigned snapshot start
      (observe log tools config assigned snapshot start).1 batch observe_computes

observe_guests-billable_example :
    AllBillable config
      (observe_guests tools config assigned snapshot (guest ∷ []) (draft_from start)).1
observe_guests-billable_example =
    observe_guests-billable config tools assigned snapshot (guest ∷ []) (draft_from start) tt

abbrev left : Transaction
left = record { version = 1; batch = batch; new_state = empty_state }

batch_computes : is_valid_batch tools batch ≡ true
unfolding is_valid_batch all_events is_usage_event is_usage_identity is_usage_mac is_usage_interface
    after_net same_text
batch_computes = refl

recover_completes_example :
    (recover log tools (interrupted none left empty_state [] [])
      ≡ (ok tt, recovered left ("batch" ∷ []) []))
    × (recover log tools (recovered left ("batch" ∷ []) [])
        ≡ (ok tt, recovered left ("batch" ∷ []) []))
recover_completes_example =
    recover_completes log tools none left empty_state [] ("batch" ∷ []) [] refl batch_computes refl
