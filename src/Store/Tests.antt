-- ===== src/Store/Tests.antt =====
-- Runs of a small queue, and the theorems at them.
use ppflight_agent.Prelude.{String, ◌≡◌, ◌≢◌, refl, Bool, true, false, none, List, [], ◌∷◌, arith}
use ppflight_agent.Prelude.Exec.{err}
use ppflight_agent.Prelude.Disk.{reliable, quiet, syscall, atomic_write}
use ppflight_agent.Prelude.Text.{is_space}
use ppflight_agent.Store.Types.{metering, telemetry, audit, Policy, Item, Files, Store, exhausted}
use ppflight_agent.Store.Open.{empty_queue}
use ppflight_agent.Store.Items.{
  find, put, delete, oldest_from, is_blank, has_file, delete_file, put_file,
}
use ppflight_agent.Store.Runs.{Call, enqueue_call, ack_call, nack_call, run, perform}
use ppflight_agent.Store.Accounting.{IsAccounted, run-IsAccounted}
use ppflight_agent.Store.Limits.{IsWithinPolicy, run-IsWithinPolicy}
use ppflight_agent.Store.Retention.{Retains, run-Retains, HasDropped, run-HasDropped}
use ppflight_agent.Store.Sequences.{IsSequenced, run-IsSequenced}
use ppflight_agent.Store.Order.{NextChoice, next_least}
use ppflight_agent.Store.Total.{enqueue-ne-exhausted}
use ppflight_agent.Store.Calls.{
  on_disk, write_stats, write_item, write_dead_letter, sync_dir, remove, remove_if_present,
}
use ppflight_agent.Store.{
  enqueue, enqueue_new, insert_item, write_or_release, make_capacity, drop_for, evict, evict_item,
  ack, ack_item, nack, nack_item, quarantine, quarantine_item, is_over, oldest, next,
}

abbrev plain : String → String
plain id = id

abbrev no_files : Files
no_files = record { wal = []; stats_file = none; dead = [] }

abbrev two_slots : Policy
two_slots = record { max_items = 2; max_bytes = 0; drop_oldest = true }

abbrev unbounded : Policy
unbounded = record { max_items = 0; max_bytes = 0; drop_oldest = false }

-- An empty telemetry queue, and an empty metering queue whose third write fails at its rename.
abbrev fresh_telemetry : Store
fresh_telemetry = record { queue = empty_queue telemetry two_slots; disk = reliable no_files }

abbrev faults : List Bool
faults =
    true ∷ true ∷ true ∷ true ∷ true ∷ true ∷ true ∷ true ∷ true ∷ true ∷ true ∷ true ∷ true ∷ true
    ∷ true ∷ true ∷ true ∷ true ∷ true ∷ false ∷ []

abbrev fresh_metering : Store
fresh_metering = record {
  queue = empty_queue metering unbounded;
  disk = record { files = no_files; outcomes = faults };
}

abbrev three : List Call
three =
    enqueue_call 10 "a" (1 ∷ 2 ∷ [])
    ∷ enqueue_call 11 "b" (3 ∷ [])
    ∷ nack_call "a" 50 []
    ∷ enqueue_call 12 "c" (4 ∷ 5 ∷ 6 ∷ [])
    ∷ []

-- A run that computes.
replay : List Call → Store → Store
unfolding run perform enqueue enqueue_new insert_item write_or_release make_capacity drop_for evict
    evict_item ack ack_item nack nack_item quarantine quarantine_item is_over oldest oldest_from
    find put delete is_blank is_space on_disk write_stats write_item write_dead_letter sync_dir
    remove remove_if_present has_file delete_file put_file quiet syscall atomic_write
replay cs s = run plain cs s

-- The third batch displaces the first.
three_evicts :
    ((replay three fresh_telemetry).queue.stats.dropped_items ≡ 1)
    × (find "a" (replay three fresh_telemetry).queue.items ≡ none)
    × ((replay three fresh_telemetry).queue.stats.pending_bytes ≡ 4)
unfolding replay
three_evicts = (refl, refl, refl)

-- The record of the second batch is not renamed into place, so its sequence goes to the third.
three_with_fault :
    ((replay three fresh_metering).queue.stats.pending_items ≡ 2)
    × (find "b" (replay three fresh_metering).queue.items ≡ none)
    × ((replay three fresh_metering).queue.stats.next_sequence ≡ 2)
unfolding replay
three_with_fault = (refl, refl, refl)

run-IsAccounted_example : IsAccounted (run plain three fresh_telemetry).queue
run-IsAccounted_example =
    run-IsAccounted plain three fresh_telemetry
      (record { distinct = tt; items_exact = refl; bytes_exact = refl })

run-IsWithinPolicy_example : IsWithinPolicy (run plain three fresh_telemetry).queue
run-IsWithinPolicy_example =
    run-IsWithinPolicy plain three fresh_telemetry
      (record { items_within = λ h. omega arith; bytes_within = λ h. omega arith })

run-IsSequenced_example : IsSequenced 4 (run plain three fresh_metering).queue
run-IsSequenced_example =
    run-IsSequenced plain 0 three fresh_metering (omega arith)
      (record { increasing = tt; issued = tt; bounded = omega arith })

run-HasDropped_example : HasDropped 0 0 (run plain three fresh_metering).queue
run-HasDropped_example = run-HasDropped plain three fresh_metering refl

abbrev item_a : Item
item_a = record {
  batch_id = "a";
  sequence = 1;
  payload = 1 ∷ [];
  created_at = 5;
  attempts = 0;
  next_attempt = 5;
  last_error = [];
}

abbrev with_a : Store
with_a = record {
  queue = record (empty_queue audit unbounded) { items = item_a ∷ [] };
  disk = record { files = no_files; outcomes = faults };
}

others : List Call
others = enqueue_call 10 "b" (2 ∷ []) ∷ nack_call "a" 70 (1 ∷ []) ∷ ack_call "b" ∷ []

run-Retains_example : Retains "a" item_a (run plain others with_a).queue
unfolding find others
run-Retains_example = run-Retains plain "a" item_a others with_a refl refl (tt, (tt, (refl, tt)))

next_least_example : NextChoice 7 with_a.items (next 7 with_a.queue)
next_least_example = next_least 7 with_a.queue

enqueue-ne-exhausted_example : (enqueue plain 10 "a" (1 ∷ []) fresh_telemetry).0 ≢ err exhausted
enqueue-ne-exhausted_example = enqueue-ne-exhausted plain 10 "a" (1 ∷ []) fresh_telemetry
