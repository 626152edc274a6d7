-- ===== src/Store/Open.antt =====
-- `Open` and `load` of internal/store/queue.go, and `Snapshot`.
use Prim.Native.Char.{code}
use ppflight_agent.Prelude.{
  ◌+◌, String, Bool, true, false, ◌||◌, Option, none, some, List, [], ◌∷◌, ltb, ◌==◌, ◌=ˢ◌,
  if◌then◌else◌, length,
}
use ppflight_agent.Prelude.Exec.{ok, err, Exec, ◌>>◌, modify}
use ppflight_agent.Prelude.Disk.{Disk, quiet}
use ppflight_agent.Store.Types.{
  Kind, metering, telemetry, audit, Policy, Item, Stats, Queue, FileName, Blob, record_of, garbage,
  Files, Store, Err, io, invalid_config, corrupt,
}
use ppflight_agent.Store.Items.{put}
use ppflight_agent.Store.Calls.{on_disk, write_stats}
use ppflight_agent.Store.{with_queue}

pub record Config : Type 0 where
  pub root : String
  pub destination : String
  pub kind : Option Kind  -- `none` is a text that `Valid` refuses
  pub policy : Policy

abbrev pub no_stats : Stats
no_stats = record {
  pending_items = 0;
  pending_bytes = 0;
  dropped_items = 0;
  dropped_bytes = 0;
  dead_letter_items = 0;
  dead_letter_bytes = 0;
  next_sequence = 0;
}

-- strings.Contains(s, "/")
unfoldable pub has_slash : String → Bool
has_slash String.[] = false
has_slash (String.◌∷◌ c s) = code c == b'/' || has_slash s

abbrev pub is_simple : String → Bool
is_simple d =
    if has_slash d then false else if d =ˢ "." then false else if d =ˢ ".." then false else true

abbrev pub set_stats : Stats → Queue → Queue
set_stats st q = record q { stats = st }

abbrev read_stats_file : Option (Option Stats) → Exec Store Err Unit
read_stats_file none s = (ok tt, s)
read_stats_file (some none) s = (err corrupt, s)
read_stats_file (some (some st)) s = (ok tt, with_queue (set_stats st) s)

abbrev clear_pending : Queue → Queue
clear_pending q = record q { stats = record q.stats { pending_items = 0; pending_bytes = 0 } }

abbrev pub recover : Item → Queue → Queue
recover item q = record q {
  items = put item q.items;
  stats = record q.stats {
    pending_items = q.stats.pending_items + 1;
    pending_bytes = q.stats.pending_bytes + length item.payload;
    next_sequence =
        if ltb q.stats.next_sequence item.sequence then item.sequence else q.stats.next_sequence;
  };
}

unfoldable pub load_blob : Blob → Exec Store Err Unit
load_blob garbage s = (err corrupt, s)
load_blob (record_of item) s =
    if item.batch_id =ˢ "" || item.sequence == 0
    then (err corrupt, s)
    else (ok tt, with_queue (recover item) s)

-- The loop over the directory's `.wal.json` entries.
unfoldable pub load_entries : List (FileName × Blob) → Exec Store Err Unit
load_entries [] s = (ok tt, s)
load_entries ((name, blob) ∷ rest) s = (do on_disk (quiet io); load_blob blob; load_entries rest) s

unfoldable pub load : Exec Store Err Unit
load = do
  on_disk (quiet io)
  λ s. read_stats_file s.disk.files.stats_file s
  modify (with_queue clear_pending)
  on_disk (quiet io)
  λ s. load_entries s.disk.files.wal s
  write_stats

abbrev pub empty_queue : Kind → Policy → Queue
empty_queue kind policy = record { kind = kind; policy = policy; items = []; stats = no_stats }

abbrev evicts_durable : Kind → Policy → Bool
evicts_durable telemetry policy = false
evicts_durable metering policy = policy.drop_oldest
evicts_durable audit policy = policy.drop_oldest

-- From the checked configuration on: the two directories are made, and the records loaded.
unfoldable pub open_queue : Kind → Policy → Exec (Disk Files) Err Queue
open_queue kind policy = do
  quiet io
  quiet io
  λ d.
      let (r, s) = load (record { queue = empty_queue kind policy; disk = d }) in
      elim r [ ok u ↦ (ok s.queue, s.disk) | err e ↦ (err e, s.disk) ]

-- `Open`
unfoldable pub open_store : Config → Exec (Disk Files) Err Queue
open_store c d =
    if c.root =ˢ "" || c.destination =ˢ "" then (err invalid_config, d) else elim c.kind [
      | none ↦ (err invalid_config, d)
      | some kind ↦
          if is_simple c.destination
          then if evicts_durable kind c.policy
            then (err invalid_config, d)
            else open_queue kind c.policy d
          else (err invalid_config, d)
    ]
