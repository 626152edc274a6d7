-- ===== src/Store/Calls.antt =====
-- The calls of internal/store/queue.go on one queue's directory.
use ppflight_agent.Prelude.{String, some, if◌then◌else◌}
use ppflight_agent.Prelude.Exec.{ok, err, Exec}
use ppflight_agent.Prelude.Disk.{Disk, quiet, syscall, atomic_write}
use ppflight_agent.Store.Types.{Item, FileName, record_of, Files, Store, Err, io, not_exist}
use ppflight_agent.Store.Items.{has_file, delete_file, put_file}

unfoldable pub on_disk : Exec (Disk Files) Err Unit → Exec Store Err Unit
on_disk m s = let (r, d) = m s.disk in (r, record s { disk = d })

unfoldable pub write_stats : Exec Store Err Unit
unfolding on_disk
write_stats s =
    on_disk (atomic_write io (λ f. record f { stats_file = some (some s.queue.stats) })) s

unfoldable pub sync_dir : Exec Store Err Unit
unfolding on_disk
sync_dir = on_disk (quiet io)

abbrev pub without_record : FileName → Files → Files
without_record name f = record f { wal = delete_file name f.wal }

-- `os.Remove(path)`: a missing file is an error of its own.
unfoldable pub remove : FileName → Exec (Disk Files) Err Unit
remove name d =
    if has_file name d.files.wal then syscall io (without_record name) d else (err not_exist, d)

-- `os.Remove(path)` whose `fs.ErrNotExist` is no error.
unfoldable pub remove_if_present : FileName → Exec (Disk Files) Err Unit
unfolding remove
remove_if_present name d = if has_file name d.files.wal then remove name d else (ok tt, d)

module _ (safe_id : String → String) where
  -- The file name of an item's record, and of its dead letter in another directory.
  abbrev pub item_path : Item → FileName
  item_path item = (item.sequence, safe_id item.batch_id)

  abbrev pub with_record : Item → Files → Files
  with_record item f = record f { wal = put_file (item_path item) (record_of item) f.wal }

  abbrev pub with_dead_letter : Item → Files → Files
  with_dead_letter item f = record f { dead = put_file (item_path item) item f.dead }

  unfoldable pub write_item : Item → Exec Store Err Unit
  unfolding on_disk
  write_item item = on_disk (atomic_write io (with_record item))

  unfoldable pub write_dead_letter : Item → Exec Store Err Unit
  unfolding on_disk
  write_dead_letter item = on_disk (atomic_write io (with_dead_letter item))
