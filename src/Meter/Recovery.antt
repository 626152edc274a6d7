-- ===== src/Meter/Recovery.antt =====
-- `Recover` of internal/meter/meter.go on a disk and a queue that do not fail.
use ppflight_agent.Prelude.{String, ◌≡◌, refl, true, ◌==◌, Option, none, some, List}
use ppflight_agent.Prelude.Exec.{ok}
use ppflight_agent.Prelude.Disk.{reliable, quiet, syscall, atomic_write}
use ppflight_agent.Meter.Types.{MeterState, Transaction, QueueApi, Library, Meter}
use ppflight_agent.Meter.Checks.{is_valid_batch}
use ppflight_agent.Meter.{
  on_disk, write_state, remove_txn, sync_directory, enqueue_batch, finish, recover, recover_content,
  state_version,
}

module _ {W : Type 0} where
  -- A manager with a transaction on disk that a crash has left, and whatever state file.
  abbrev pub interrupted :
      Option (Option MeterState) → Transaction → MeterState → W → List (Option String) → Meter W
  interrupted old t st w ids = record {
    state = st;
    disk = reliable (record { state_file = old; txn_file = some (some t) });
    queue = w;
    ids = ids;
  }

  abbrev pub recovered : Transaction → W → List (Option String) → Meter W
  recovered t w ids = record {
    state = t.new_state;
    disk = reliable (record { state_file = some (some t.new_state); txn_file = none });
    queue = w;
    ids = ids;
  }

module _ {W : Type 0} (q : QueueApi W) (l : Library) where
  finish_completes :
      (old : Option (Option MeterState)) (t : Transaction) (st : MeterState) (w w' : W)
      (ids : List (Option String))
      → q.enqueue t.batch.batch_id (l.marshal t.batch) w ≡ (ok tt, w')
      → finish q l t.batch t.new_state (interrupted old t st w ids) ≡ (ok tt, recovered t w' ids)
  unfolding finish enqueue_batch write_state remove_txn sync_directory on_disk atomic_write syscall
      quiet
  finish_completes old t st w w' ids e = rw e refl

  -- On a disk that does not fail, recovery of a valid transaction that the queue accepts ends with its
  -- batch in the queue, its state in memory and in the state file, whatever these were before, and no
  -- transaction left; and a recovery after that changes nothing.
  pub recover_completes :
      (old : Option (Option MeterState)) (t : Transaction) (st : MeterState) (w w' : W)
      (ids : List (Option String))
      → (t.version == state_version) ≡ true
      → is_valid_batch l t.batch ≡ true
      → q.enqueue t.batch.batch_id (l.marshal t.batch) w ≡ (ok tt, w')
      → (recover q l (interrupted old t st w ids) ≡ (ok tt, recovered t w' ids))
        × (recover q l (recovered t w' ids) ≡ (ok tt, recovered t w' ids))
  unfolding recover recover_content on_disk quiet syscall
  recover_completes old t st w w' ids v b e =
      (rw (v, b) (finish_completes old t st w w' ids e), refl)
