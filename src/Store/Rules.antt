-- ===== src/Store/Rules.antt =====
-- Rules for the actions that only touch the directory, and for those that only touch the queue.
use ppflight_agent.Prelude.{String}
use ppflight_agent.Prelude.Exec.{Result, ok, err, Exec, Triple, Triple-bind, Post, modify, ◌>>◌}
use ppflight_agent.Prelude.Disk.{Disk}
use ppflight_agent.Store.Types.{Item, Queue, Files, Store, Err}
use ppflight_agent.Store.Calls.{on_disk, write_stats, sync_dir, write_item, write_dead_letter}
use ppflight_agent.Store.{with_queue}

-- A property of the queue alone.
abbrev pub OfQueue : (Queue → Type 0) → Store → Type 0
OfQueue Q s = Q s.queue

module _ (Q R : Queue → Type 0) (weaken : (q : Queue) → Q q → R q) where
  either :
      (r : Result Err Unit) (s : Store) → Q s.queue → Post (λ _. OfQueue Q) (λ _. OfQueue R) r s
  either (ok u) s h = h
  either (err e) s h = weaken s.queue h

  abbrev pub Quiet : Exec Store Err Unit → Type 0
  Quiet m = Triple (OfQueue Q) m (λ _. OfQueue Q) (λ _. OfQueue R)

  pub Quiet-on_disk : (m : Exec (Disk Files) Err Unit) → Quiet (on_disk m)
  unfolding on_disk
  Quiet-on_disk m = record { run = λ s h. either (m s.disk).0 (record s { disk = (m s.disk).1 }) h }

  pub Quiet-write_stats : Quiet write_stats
  unfolding write_stats
  Quiet-write_stats = record { run = λ s h. either (write_stats s).0 (write_stats s).1 h }

  pub Quiet-sync_dir : Quiet sync_dir
  unfolding sync_dir
  Quiet-sync_dir = record { run = λ s h. either (sync_dir s).0 (sync_dir s).1 h }

  pub Quiet-write_item : (f : String → String) (item : Item) → Quiet (write_item f item)
  unfolding write_item
  Quiet-write_item f item = record {
    run = λ s h. either (write_item f item s).0 (write_item f item s).1 h;
  }

  pub Quiet-write_dead_letter :
      (f : String → String) (item : Item) → Quiet (write_dead_letter f item)
  unfolding write_dead_letter
  Quiet-write_dead_letter f item = record {
    run = λ s h. either (write_dead_letter f item s).0 (write_dead_letter f item s).1 h;
  }

  pub Quiet-finish : Quiet (sync_dir >> write_stats)
  Quiet-finish =
      Triple-bind (λ _. OfQueue Q) sync_dir (λ _. write_stats) Quiet-sync_dir
        (λ _. Quiet-write_stats)

module _ (Q R M : Queue → Type 0) where
  pub Triple-modify :
      (g : Queue → Queue)
      → ((q : Queue) → Q q → M (g q))
      → Triple {E = Err} (OfQueue Q) (modify (with_queue g)) (λ _. OfQueue M) (λ _. OfQueue R)
  Triple-modify g k = record { run = λ s h. k s.queue h }
