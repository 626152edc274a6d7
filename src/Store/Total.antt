-- ===== src/Store/Total.antt =====
-- The eviction loop ends: the fuel that the model gives it is never used up.
use ppflight_agent.Prelude.{
  ℕ, zero, suc, ◌≤◌, ◌<◌, String, ◌≡◌, ◌≢◌, refl, Bool, true, false, not, ◌||◌, some, List, [], ◌∷◌,
  arith, eq_iff, length, inl, inr,
}
use ppflight_agent.Prelude.Exec.{
  Result, ok, err, Exec, Triple, Triple-bind, Triple-branch, Triple-when_some, Triple-imp,
  Triple-fail, Triple-return, Post, after, ◌>>◌, modify, return,
}
use ppflight_agent.Prelude.Disk.{Disk, syscall-cases, quiet, atomic_write, atomic_write-cases}
use ppflight_agent.Store.Types.{
  Item, Store, Files, FileName, Err, io, capacity, exhausted, is_telemetry, invalid_batch,
}
use ppflight_agent.Store.Items.{find, delete, is_blank}
use ppflight_agent.Store.Calls.{
  on_disk, write_stats, sync_dir, write_item, remove, item_path, with_record, without_record,
}
use ppflight_agent.Store.Members.{Within}
use ppflight_agent.Store.Order.{oldest_least}
use ppflight_agent.Store.{
  with_queue, forget, admit, count_dropped, reserve_sequence, release_sequence, is_over, oldest,
  evict_item, evict, drop_for, make_capacity, write_or_release, insert_item, enqueue_new,
  fresh_item, enqueue, is_empty,
}

delete_le : (id : String) (xs : List Item) → length (delete id xs) ≤ length xs
unfolding delete
delete_le id [] = omega arith
delete_le id (x ∷ xs) = ground (arith, delete_le id xs)

delete-Within :
    (y : Item) (xs : List Item) → Within y xs → length (delete y.batch_id xs) < length xs
unfolding delete
delete-Within y [] w = elim w [ ]
delete-Within y (x ∷ xs) (inl e) =
    rw (e, (eq_iff y.batch_id y.batch_id).1 refl) (omega (arith, delete_le y.batch_id xs))
delete-Within y (x ∷ xs) (inr w) = ground (arith, delete-Within y xs w)

-- A failure that is one of the code's errors.
abbrev Real : Err → Store → Type 0
Real e s = e ≢ exhausted

-- An action that keeps a bound on the number of items, or fails with one of the code's errors.
abbrev Bounded : (ℕ → Type 0) → {A : Type 0} → Exec Store Err A → Type 0
Bounded N m = Triple (λ s. N (length s.items)) m (λ _ s. N (length s.items)) Real

remove_error : (n : FileName) (d : Disk Files) (e : Err) → (remove n d).0 ≡ err e → e ≢ exhausted
unfolding remove
remove_error n d e p q = ground (arith, syscall-cases io (without_record n) d)

quiet_error : (d : Disk Files) (e : Err) → (quiet io d).0 ≡ err e → e ≢ exhausted
unfolding quiet
quiet_error d e p q = ground arith

module _ (N : ℕ → Type 0) where
  either :
      (r : Result Err Unit) (s : Store)
      → N (length s.items)
      → ((e : Err) → r ≡ err e → e ≢ exhausted)
      → Post {S = Store} (λ _ t. N (length t.items)) Real r s
  either (ok u) s h k = h
  either (err e) s h k = k e refl

  written : (g : Files → Files) → Bounded N (on_disk (atomic_write io g))
  unfolding on_disk
  written g = record {
    run = λ s h.
        either (atomic_write io g s.disk).0 (record s { disk = (atomic_write io g s.disk).1 }) h
          (λ e p q. ground (arith, atomic_write-cases io g s.disk));
  }

  called :
      (m : Exec (Disk Files) Err Unit)
      → ((d : Disk Files) (e : Err) → (m d).0 ≡ err e → e ≢ exhausted)
      → Bounded N (on_disk m)
  unfolding on_disk
  called m k = record {
    run = λ s h. either (m s.disk).0 (record s { disk = (m s.disk).1 }) h (k s.disk);
  }

  finished : Bounded N (sync_dir >> write_stats)
  unfolding sync_dir write_stats
  finished =
      Triple-bind (λ _ s. N (length s.items)) sync_dir (λ _. write_stats)
        (called (quiet io) quiet_error)
        (λ _. record {
          run = λ s h. (written (λ f. record f { stats_file = some (some s.queue.stats) })).run s h;
        })

module _ (f : String → String) where
  evict_item_shrinks :
      (item : Item) (n : ℕ)
      → Triple
          (λ s. (length s.items ≤ n) × (oldest s.items ≡ some item))
          (evict_item f item)
          (λ _ s. length s.items < n)
          Real
  unfolding evict_item on_disk
  evict_item_shrinks item n = record {
    run = λ s h.
        go s (remove (item_path f item) s.disk).0 (remove (item_path f item) s.disk).1
          (remove_error (item_path f item) s.disk)
          (delete-Within item s.items (oldest_least s.items item h.1).0) h.0;
  }
    where
      go :
          (s : Store) (r : Result Err Unit) (d : Disk Files)
          → ((e : Err) → r ≡ err e → e ≢ exhausted)
          → length (delete item.batch_id s.items) < length s.items
          → length s.items ≤ n
          → let o : Result Err Unit × Store =
              after {B = Unit} r
                (λ _. modify (with_queue (λ q. count_dropped item (forget item q))))
                (record s { disk = d }) in
            Post {S = Store} (λ _ t. length t.items < n) Real o.0 o.1
      go s (ok u) d k l b = omega arith
      go s (err e) d k l b = k e refl

  evict_total :
      (fuel bytes : ℕ)
      → Triple (λ s. length s.items < fuel) (evict f fuel bytes) (λ _ _. Unit {0}) Real
  unfolding evict
  evict_total zero bytes = record { run = λ s h. absurd (omega arith) }
  evict_total (suc fuel) bytes =
      Triple-branch (λ s. is_over bytes s.queue) _ _
        (Triple-when_some (λ s. oldest s.items) (λ item. evict_item f item >> evict f fuel bytes) _
          (λ item.
            Triple-imp (λ s. (length s.items ≤ fuel) × (oldest s.items ≡ some item)) (λ _ _. Unit)
              Real _ (λ s h. (omega (arith, h.0.0), h.1)) (λ a s h. h) (λ e s h. h)
              (Triple-bind (λ _ s. length s.items < fuel) (evict_item f item)
                (λ _. evict f fuel bytes) (evict_item_shrinks item fuel)
                (λ _. evict_total fuel bytes)))
          (Triple-fail capacity (λ s h. λ p. cc)))
        (Triple-return tt (λ s h. tt))

  abbrev Ends : {A : Type 0} → Exec Store Err A → Type 0
  Ends {A = A} m = Triple (λ _. Unit {0}) m (λ _ _. Unit {0}) Real

  drop_for_total : (bytes : ℕ) → Ends (drop_for f bytes)
  unfolding drop_for
  drop_for_total bytes =
      Triple-bind (λ _ _. Unit) (λ s. evict f (suc (length s.items)) bytes s)
        (λ _. sync_dir >> write_stats)
        (record { run = λ s h. (evict_total (suc (length s.items)) bytes).run s (omega arith) })
        (λ _. finished (λ _. Unit))

  make_capacity_total : (bytes : ℕ) → Ends (make_capacity f bytes)
  unfolding make_capacity
  make_capacity_total bytes =
      Triple-branch (λ s. not (is_over bytes s.queue)) _ _ (Triple-return tt (λ s h. tt))
        (Triple-branch (λ s. not (is_telemetry s.kind) || not s.policy.drop_oldest) _ _
          (Triple-fail capacity (λ s h. λ p. cc))
          (Triple-imp (λ _. Unit) (λ _ _. Unit) Real _ (λ s h. tt) (λ a s h. h) (λ e s h. h)
            (drop_for_total bytes)))

  write_or_release_total : (item : Item) → Ends (write_or_release f item)
  unfolding write_or_release write_item
  write_or_release_total item = record {
    run = λ s h.
        go (write_item f item s).0 (write_item f item s).1
          ((written (λ _. Unit) (with_record f item)).run s tt);
  }
    where
      go :
          (r : Result Err Unit) (t : Store)
          → Post {S = Store} (λ _ _. Unit {0}) Real r t
          → let o : Result Err Unit × Store = elim r [
            | ok u ↦ (ok u, t)
            | err e ↦ (err e, with_queue release_sequence t)
          ] in
            Post {S = Store} (λ _ _. Unit {0}) Real o.0 o.1
      go (ok u) t h = tt
      go (err e) t h = h

  insert_item_total : (item : Item) → Ends (insert_item f item)
  unfolding insert_item write_stats
  insert_item_total item =
      Triple-bind (λ _ _. Unit) (write_or_release f item)
        (λ _. modify (with_queue (admit item)) >> (write_stats >> return (item, true)))
        (write_or_release_total item)
        λ _. record {
          run = λ s h.
              (Triple-bind {P = λ _. Unit} {R = Real} {N = λ _ _. Unit} (λ _ _. Unit) write_stats
                  (λ _. return (item, true))
                  (record {
                    run = λ t k.
                        (written (λ _. Unit)
                            (λ x. record x { stats_file = some (some t.stats) })).run
                          t tt;
                  })
                  (λ _. Triple-return (item, true) (λ t k. tt))).run
                (with_queue (admit item) s) tt;
        }

  enqueue_new_total :
      (now : ℕ) (id : String) (payload : List ℕ) → Ends (enqueue_new f now id payload)
  unfolding enqueue_new
  enqueue_new_total now id payload =
      Triple-bind (λ _ _. Unit) (make_capacity f (length payload))
        (λ _. modify (with_queue reserve_sequence) >> insert) (make_capacity_total (length payload))
        (λ _. record {
          run = λ s h.
              let t : Store = with_queue reserve_sequence s in
              (insert_item_total (fresh_item now id payload t.queue)).run t tt;
        })
    where
      insert : Exec Store Err (Item × Bool)
      insert s = insert_item f (fresh_item now id payload s.queue) s

  enqueue_total : (now : ℕ) (id : String) (payload : List ℕ) → Ends (enqueue f now id payload)
  unfolding enqueue
  enqueue_total now id payload =
      Triple-branch (λ s. is_blank id || is_empty payload) _ _
        (Triple-fail invalid_batch (λ s h. λ p. cc))
        (Triple-when_some (λ s. find id s.items) (λ found. return (found, false)) _
          (λ found. Triple-return (found, false) (λ s h. tt))
          (Triple-imp (λ _. Unit) (λ _ _. Unit) Real _ (λ s h. tt) (λ a s h. h) (λ e s h. h)
            (enqueue_new_total now id payload)))

-- However many items there are and whatever the disk does, `Enqueue` ends: the bound on the rounds
-- of its eviction loop is never reached.
pub enqueue-ne-exhausted :
    (f : String → String) (now : ℕ) (id : String) (payload : List ℕ) (s : Store)
    → (enqueue f now id payload s).0 ≢ err exhausted
enqueue-ne-exhausted f now id payload s =
    go (enqueue f now id payload s).0 ((enqueue_total f now id payload).run s tt)
  where
    go :
        (r : Result Err (Item × Bool))
        → Post {S = Store} (λ _ _. Unit {0}) Real r (enqueue f now id payload s).1
        → r ≢ err exhausted
    go (ok a) h p = cc
    go (err e) h p = h (cc)
