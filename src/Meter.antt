-- ===== src/Meter.antt =====
-- internal/meter/meter.go: counters become usage events, batched under a transaction file, so that
-- a restart completes a batch that a crash interrupted. A `*Manager` is the record `Meter`, with its
-- files behind the failing calls of `Prelude.Disk`, the metering queue, and the answers of NewID.
pub mod Types
pub mod Checks
pub mod Interfaces
pub mod Counters
pub mod Billing
pub mod Commit
pub mod Recovery
mod Tests
use ppflight_agent.Prelude.{
  ℕ, ◌+◌, ◌%◌, ◌^◌, String, Bool, true, false, not, ◌&&◌, ◌||◌, Option, none, some, List, [], ◌∷◌,
  ◌++◌, ltb, leb, ◌==◌, ◌=ˢ◌, if◌then◌else◌, length,
}
use ppflight_agent.Prelude.Exec.{
  Result, ok, err, Exec, ◌>>=◌, ◌>>◌, return, fail, modify, branch, when_some,
}
use ppflight_agent.Prelude.Disk.{Disk, quiet, syscall, atomic_write}
use ppflight_agent.Meter.Types.{
  Assignment, Guest, Snapshot, NicCounter, UsageRecord, UsageBatch, MeterState, Transaction, Files,
  Config, QueueApi, Library, Meter, Draft, Err, invalid_config, corrupt, io, no_id, invalid_batch,
  queue_failed,
}
use ppflight_agent.Meter.Types
use ppflight_agent.Meter.Checks.{is_valid_batch}
use ppflight_agent.Meter.Counters.{bump, observe_guests}

abbrev pub state_version : ℕ
state_version = 1

abbrev pub empty_state : MeterState
empty_state = record {
  version = state_version;
  next_batch_sequence = 0;
  next_event_sequence = 0;
  counters = [];
}

abbrev pub with_state_file : MeterState → Files → Files
with_state_file st f = record f { state_file = some (some st) }

abbrev pub with_txn_file : Transaction → Files → Files
with_txn_file t f = record f { txn_file = some (some t) }

abbrev pub without_txn_file : Files → Files
without_txn_file f = record f { txn_file = none }

-- The checks of `Open` on its configuration.
unfoldable pub is_config : Config → Bool
is_config c =
    not (c.directory =ˢ "")
    && not (c.agent_ref =ˢ "")
    && not (c.collector_ref =ˢ "")
    && not (c.source_ref =ˢ "")
    && not (c.cluster_ref =ˢ "")
    && (c.mode =ˢ "test" || c.mode =ˢ "production")

abbrev pub batch_of : Config → ℕ → Draft → String → UsageBatch
batch_of c observed_at d id = record {
  schema_version = 1;
  batch_id = id;
  agent_ref = c.agent_ref;
  collector_ref = c.collector_ref;
  source_ref = c.source_ref;
  cluster_ref = c.cluster_ref;
  mode = c.mode;
  sequence = d.state.next_batch_sequence;
  observed_at = observed_at;
  events = d.records;
}

abbrev pub transaction_of : UsageBatch → MeterState → Transaction
transaction_of b st = record { version = state_version; batch = b; new_state = st }

module _ {W : Type 0} where
  unfoldable pub on_disk : Exec (Disk Files) Err Unit → Exec (Meter W) Err Unit
  on_disk m s = let (r, d) = m s.disk in (r, record s { disk = d })

  -- `atomicJSON(m.statePath, state)`
  unfoldable pub write_state : MeterState → Exec (Meter W) Err Unit
  write_state st = on_disk (atomic_write io (with_state_file st))

  -- `atomicJSON(m.txnPath, txn)`
  unfoldable pub write_txn : Transaction → Exec (Meter W) Err Unit
  write_txn t = on_disk (atomic_write io (with_txn_file t))

  -- `os.Remove(m.txnPath)`, of a file that is there
  unfoldable pub remove_txn : Exec (Meter W) Err Unit
  remove_txn = on_disk (syscall io without_txn_file)

  unfoldable pub sync_directory : Exec (Meter W) Err Unit
  sync_directory = on_disk (quiet io)

  abbrev pub set_state : MeterState → Meter W → Meter W
  set_state st s = record s { state = st }

  -- What `load` does with the content of the state file.
  unfoldable pub load_content : Option (Option MeterState) → Exec (Meter W) Err Unit
  load_content none s = write_state s.state s
  load_content (some none) s = (err corrupt, s)
  load_content (some (some st)) s =
      if st.version == state_version then (ok tt, set_state st s) else (err corrupt, s)

  unfoldable pub load : Exec (Meter W) Err Unit
  load = do on_disk (quiet io); λ s. load_content s.disk.files.state_file s

  -- `Open`, on the directory's files.
  unfoldable pub open_meter : Config → Exec (Meter W) Err Unit
  open_meter c =
      branch (λ s. is_config c) (do on_disk (quiet io); modify (set_state empty_state); load)
        (fail invalid_config)

  abbrev pub draft_from : Meter W → Draft
  draft_from s = record { records = []; state = bump s.state; ids = s.ids }

  module _ (q : QueueApi W) (l : Library) where
    -- `queue.Enqueue`
    unfoldable pub enqueue_batch : UsageBatch → Exec (Meter W) Err Unit
    enqueue_batch b s =
        let (r, w) = q.enqueue b.batch_id (l.marshal b) s.queue in
        (elim r [ ok u ↦ ok tt | err e ↦ err queue_failed ], record s { queue = w })

    -- What follows the transaction file: the batch is queued, and the state moves on.
    unfoldable pub finish : UsageBatch → MeterState → Exec (Meter W) Err Unit
    finish b st = do
      enqueue_batch b
      write_state st
      modify (set_state st)
      remove_txn
      sync_directory

    unfoldable pub recover_content : Option (Option Transaction) → Exec (Meter W) Err Unit
    recover_content none s = (ok tt, s)
    recover_content (some none) s = (err corrupt, s)
    recover_content (some (some t)) s =
        if t.version == state_version && is_valid_batch l t.batch
        then finish t.batch t.new_state s
        else (err corrupt, s)

    -- `recoverLocked`
    unfoldable pub recover : Exec (Meter W) Err Unit
    recover = do on_disk (quiet io); λ s. recover_content s.disk.files.txn_file s

    -- From the batch on.
    unfoldable pub commit : UsageBatch → MeterState → Exec (Meter W) Err (Option UsageBatch)
    commit b st =
        branch (λ s. is_valid_batch l b)
          (do write_txn (transaction_of b st); finish b st; return (some b)) (fail invalid_batch)

    abbrev set_ids : List (Option String) → Meter W → Meter W
    set_ids ids s = record s { ids = ids }

    unfoldable pub name_batch :
        Config → ℕ → Draft → List (Option String) → Exec (Meter W) Err (Option UsageBatch)
    name_batch c at d [] s = (err no_id, s)
    name_batch c at d (none ∷ ids) s = (err no_id, set_ids ids s)
    name_batch c at d (some id ∷ ids) s = commit (batch_of c at d id) d.state (set_ids ids s)

    -- What `Observe` does with the result of its loop; no record is no batch.
    unfoldable pub publish :
        Config → ℕ → Result Err Unit → Draft → Exec (Meter W) Err (Option UsageBatch)
    publish c at (err e) d s = (err e, set_ids d.ids s)
    publish c at (ok u) d s =
        if length d.records == 0
        then (ok none, set_ids d.ids s)
        else name_batch c at d d.ids (set_ids d.ids s)

    unfoldable pub record_snapshot :
        Config → (Guest → Option Assignment) → Snapshot → Exec (Meter W) Err (Option UsageBatch)
    record_snapshot c assigned snap s =
        let (r, d) = observe_guests l c assigned snap (l.sort snap.guests) (draft_from s) in
        publish c snap.observed_at r d s

    -- `Observe`
    unfoldable pub observe :
        Config → (Guest → Option Assignment) → Snapshot → Exec (Meter W) Err (Option UsageBatch)
    observe c assigned snap = do recover; record_snapshot c assigned snap
