-- ===== src/Store.antt =====
-- internal/store/queue.go: the disk queue of one destination and kind. The struct's maps, counters
-- and policy are the record `Queue`; its directory is `Files`, behind the failing calls of
-- `Prelude.Disk`. Methods are actions on the pair of both. `q.now()` is an argument, times are
-- nanoseconds with 0 for the zero time, and texts that are only measured or cut are bytes.
-- Pending counters are Go ints that a consistent queue never takes below zero.
pub mod Types
pub mod Items
pub mod Calls
pub mod Open
pub mod Members
pub mod Order
pub mod Accounting
pub mod Rules
pub mod Steps
pub mod Removals
pub mod Runs
pub mod Limits
pub mod Retention
pub mod Sequences
pub mod Total
mod Tests
use ppflight_agent.Prelude.{
  ℕ, zero, suc, ◌+◌, ◌-◌, ◌^◌, String, Bool, true, false, not, ◌&&◌, ◌||◌, Option, none, some, List,
  [], ltb, if◌then◌else◌, length, take,
}
use ppflight_agent.Prelude.Exec.{
  ok, err, Exec, ◌>>=◌, ◌>>◌, return, fail, modify, branch, when_some,
}
use ppflight_agent.Store.Types.{
  Kind, Policy, Item, Stats, Queue, Store, Err, io, not_exist, capacity, invalid_batch, exhausted,
  u64, is_telemetry, is_audit,
}
use ppflight_agent.Store.Items.{find, delete, put, oldest_from, first_due_from, is_blank}
use ppflight_agent.Store.Calls.{
  on_disk, write_stats, sync_dir, remove, remove_if_present, item_path, write_item,
  write_dead_letter,
}

abbrev pub audit_enqueue_delay : ℕ
audit_enqueue_delay = 5000000000

abbrev pub last_error_limit : ℕ
last_error_limit = 512

abbrev with_queue : (Queue → Queue) → Store → Store
with_queue f s = record s { queue = f s.queue }

-- delete(q.items, id), and the pending counters that go with it
abbrev pub forget : Item → Queue → Queue
forget item q = record q {
  items = delete item.batch_id q.items;
  stats = record q.stats {
    pending_items = q.stats.pending_items - 1;
    pending_bytes = q.stats.pending_bytes - length item.payload;
  };
}

abbrev pub count_dropped : Item → Queue → Queue
count_dropped item q = record q {
  stats = record q.stats {
    dropped_items = u64 (q.stats.dropped_items + 1);
    dropped_bytes = u64 (q.stats.dropped_bytes + length item.payload);
  };
}

abbrev pub count_dead : Item → Queue → Queue
count_dead item q = record q {
  stats = record q.stats {
    dead_letter_items = u64 (q.stats.dead_letter_items + 1);
    dead_letter_bytes = u64 (q.stats.dead_letter_bytes + length item.payload);
  };
}

-- The closure `over` of `makeCapacity`.
unfoldable pub is_over : ℕ → Queue → Bool
is_over new_bytes q =
    (ltb 0 q.policy.max_items && ltb q.policy.max_items (q.stats.pending_items + 1))
    || (ltb 0 q.policy.max_bytes && ltb q.policy.max_bytes (q.stats.pending_bytes + new_bytes))

unfoldable pub oldest : List Item → Option Item
oldest xs = oldest_from none xs

-- `Next`
unfoldable pub next : ℕ → Queue → Option Item
next now q = first_due_from now none q.items

abbrev pub reserve_sequence : Queue → Queue
reserve_sequence q = record q {
  stats = record q.stats { next_sequence = u64 (q.stats.next_sequence + 1) };
}

abbrev pub release_sequence : Queue → Queue
release_sequence q = record q {
  stats = record q.stats { next_sequence = u64 (q.stats.next_sequence + (2 ^ 64 - 1)) };
}

abbrev pub admit : Item → Queue → Queue
admit item q = record q {
  items = put item q.items;
  stats = record q.stats {
    pending_items = q.stats.pending_items + 1;
    pending_bytes = q.stats.pending_bytes + length item.payload;
  };
}

-- The item that `Enqueue` builds from the queue whose sequence it has just advanced.
abbrev pub fresh_item : ℕ → String → List ℕ → Queue → Item
fresh_item now batch_id payload q = record {
  batch_id = batch_id;
  sequence = q.stats.next_sequence;
  payload = payload;
  created_at = now;
  attempts = 0;
  next_attempt = if is_audit q.kind then now + audit_enqueue_delay else now;
  last_error = [];
}

abbrev pub is_empty : List ℕ → Bool
is_empty [] = true
is_empty _ = false

-- What `Nack` and `Quarantine` record in the item.
abbrev pub nacked : ℕ → List ℕ → Item → Item
nacked at reason item = record item {
  attempts = item.attempts + 1;
  next_attempt = at;
  last_error = take last_error_limit reason;
}

module _ (safe_id : String → String) where
  -- One round of the eviction loop, for the item that `oldest` chose.
  unfoldable pub evict_item : Item → Exec Store Err Unit
  evict_item item = do
    on_disk (remove (item_path safe_id item))
    modify (with_queue (λ q. count_dropped item (forget item q)))

  -- `for over() { … }`, on fuel.
  unfoldable pub evict : ℕ → ℕ → Exec Store Err Unit
  evict zero new_bytes = fail exhausted
  evict (suc fuel) new_bytes =
      branch (λ s. is_over new_bytes s.queue)
        (when_some (λ s. oldest s.items) (λ item. evict_item item >> evict fuel new_bytes)
          (fail capacity))
        (return tt)

  -- The loop, on fuel that it cannot use up, and what follows it.
  unfoldable pub drop_for : ℕ → Exec Store Err Unit
  drop_for new_bytes = do λ s. evict (suc (length s.items)) new_bytes s; sync_dir; write_stats

  unfoldable pub make_capacity : ℕ → Exec Store Err Unit
  make_capacity new_bytes =
      branch (λ s. not (is_over new_bytes s.queue)) (return tt)
        (branch (λ s. not (is_telemetry s.kind) || not s.policy.drop_oldest) (fail capacity)
          (drop_for new_bytes))

  -- writeItem, with the sequence given back if it fails
  unfoldable pub write_or_release : Item → Exec Store Err Unit
  write_or_release item s =
      let (r, t) = write_item safe_id item s in
      elim r [ ok u ↦ (ok u, t) | err e ↦ (err e, with_queue release_sequence t) ]

  unfoldable pub insert_item : Item → Exec Store Err (Item × Bool)
  insert_item item = do
    write_or_release item
    modify (with_queue (admit item))
    write_stats
    return (item, true)

  unfoldable pub enqueue_new : ℕ → String → List ℕ → Exec Store Err (Item × Bool)
  enqueue_new now batch_id payload = do
    make_capacity (length payload)
    modify (with_queue reserve_sequence)
    λ s. insert_item (fresh_item now batch_id payload s.queue) s

  -- `Enqueue`: the item, and whether it is new.
  unfoldable pub enqueue : ℕ → String → List ℕ → Exec Store Err (Item × Bool)
  enqueue now batch_id payload =
      branch (λ s. is_blank batch_id || is_empty payload) (fail invalid_batch)
        (when_some (λ s. find batch_id s.items) (λ found. return (found, false))
          (enqueue_new now batch_id payload))

  unfoldable pub ack_item : Item → Exec Store Err Unit
  ack_item item = do
    on_disk (remove_if_present (item_path safe_id item))
    sync_dir
    modify (with_queue (forget item))
    write_stats

  -- `Ack`: an unknown batch is acknowledged already.
  unfoldable pub ack : String → Exec Store Err Unit
  ack batch_id = when_some (λ s. find batch_id s.items) ack_item (return tt)

  unfoldable pub nack_item : Item → Exec Store Err Unit
  nack_item item = do
    write_item safe_id item
    modify (with_queue (λ q. record q { items = put item q.items }))

  -- `Nack`
  unfoldable pub nack : String → ℕ → List ℕ → Exec Store Err Unit
  nack batch_id at reason =
      when_some (λ s. find batch_id s.items) (λ item. nack_item (nacked at reason item))
        (fail not_exist)

  unfoldable pub quarantine_item : Item → Exec Store Err Unit
  quarantine_item item = do
    write_dead_letter safe_id item
    on_disk (remove_if_present (item_path safe_id item))
    sync_dir
    modify (with_queue (λ q. count_dead item (forget item q)))
    write_stats

  -- `Quarantine`
  unfoldable pub quarantine : String → List ℕ → Exec Store Err Unit
  quarantine batch_id reason =
      when_some (λ s. find batch_id s.items) (λ item. quarantine_item (nacked 0 reason item))
        (fail not_exist)
