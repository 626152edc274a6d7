-- ===== src/Store/Steps.antt =====
-- A property of the queue that each change of the queue keeps holds after every call, whether it
-- succeeds or fails, and whatever the disk does.
use ppflight_agent.Prelude.{
  ℕ, zero, suc, String, ◌≡◌, refl, sym, Bool, true, false, not, ◌||◌, none, some, List, arith,
  length,
}
use ppflight_agent.Prelude.Exec.{
  Result, ok, err, Exec, Triple, Triple-bind, Triple-branch, Triple-when_some, Triple-imp,
  Triple-fail, Triple-return, Post, ◌>>◌, modify, return,
}
use mathlib.Core.Path.{subst}
use ppflight_agent.Store.Types.{Item, Queue, Store, Err, capacity, invalid_batch, is_telemetry}
use ppflight_agent.Store.Items.{find, put, is_blank}
use ppflight_agent.Store.Calls.{on_disk, write_stats, sync_dir, write_item, remove, item_path}
use ppflight_agent.Store.Members.{find-delete-none}
use ppflight_agent.Store.Rules.{
  OfQueue, Quiet-on_disk, Quiet-write_stats, Quiet-write_item, Quiet-finish, Triple-modify,
}
use ppflight_agent.Store.{
  with_queue, forget, admit, count_dropped, count_dead, reserve_sequence, release_sequence, is_over,
  oldest, evict_item, evict, drop_for, make_capacity, write_or_release, insert_item, enqueue_new,
  fresh_item, enqueue, nacked, is_empty,
}

-- The changes that a call makes to a queue with `Q`, and `R` after them. `Removable` tells the
-- batch IDs that are acknowledged or quarantined.
pub record IsStep (Q R : Queue → Type 0) (Removable : String → Type 0) : Type 0 where
  pub weakened : (q : Queue) → Q q → R q
  pub evicted :
      (item : Item) (q : Queue)
      → oldest q.items ≡ some item
      → is_telemetry q.kind ≡ true
      → Q q
      → Q (count_dropped item (forget item q))
  pub released : (q : Queue) → Q q → R (release_sequence (reserve_sequence q))
  pub admitted :
      (item : Item) (q : Queue)
      → find item.batch_id q.items ≡ none
      → is_over (length item.payload) q ≡ false
      → item.sequence ≡ (reserve_sequence q).stats.next_sequence
      → Q q
      → R (admit item (reserve_sequence q))
  pub acked :
      (item : Item) (q : Queue)
      → Removable item.batch_id
      → find item.batch_id q.items ≡ some item
      → Q q
      → R (forget item q)
  pub retried :
      (at : ℕ) (reason : List ℕ) (item : Item) (q : Queue)
      → find item.batch_id q.items ≡ some item
      → Q q
      → R (record q { items = put (nacked at reason item) q.items })
  pub buried :
      (at : ℕ) (reason : List ℕ) (item : Item) (q : Queue)
      → Removable item.batch_id
      → find item.batch_id q.items ≡ some item
      → Q q
      → R (count_dead (nacked at reason item) (forget (nacked at reason item) q))

module _ (f : String → String) (Q R : Queue → Type 0) (Removable : String → Type 0)
    (step : IsStep Q R Removable) where
  -- The invariant, and that no pending item has the given ID.
  abbrev Lacks : String → Queue → Type 0
  Lacks id q = Q q × (find id q.items ≡ none)

  abbrev Fits : String → ℕ → Queue → Type 0
  Fits id bytes q = Lacks id q × (is_over bytes q ≡ false)

  abbrev Evicting : String → Queue → Type 0
  Evicting id q = Lacks id q × (is_telemetry q.kind ≡ true)

  abbrev Chosen : String → Item → Queue → Type 0
  Chosen id item q = Evicting id q × (oldest q.items ≡ some item)

  -- The two ends of an action that leads from `P` to `M` if it returns, and to `R` if it fails.
  abbrev Leads : (P M : Queue → Type 0) → {A : Type 0} → Exec Store Err A → Type 0
  Leads P M m = Triple (OfQueue P) m (λ _. OfQueue M) (λ _. OfQueue R)

  evict_item-Leads :
      (id : String) (item : Item) → Leads (Chosen id item) (Evicting id) (evict_item f item)
  unfolding evict_item
  evict_item-Leads id item =
      Triple-bind (λ _. OfQueue (Chosen id item)) (on_disk (remove (item_path f item)))
        (λ _. modify (with_queue (λ q. count_dropped item (forget item q))))
        (Quiet-on_disk (Chosen id item) R (λ q h. step.weakened q h.0.0.0)
          (remove (item_path f item)))
        λ _.
          Triple-modify (Chosen id item) R (Evicting id) (λ q. count_dropped item (forget item q))
            λ q h. (
              (
                step.evicted item q h.1 h.0.1 h.0.0.0,
                find-delete-none id item.batch_id q.items h.0.0.1,
              ),
              h.0.1,
            )

  evict-Leads :
      (id : String) (fuel bytes : ℕ) → Leads (Evicting id) (Fits id bytes) (evict f fuel bytes)
  unfolding evict
  evict-Leads id zero bytes = record { run = λ s h. step.weakened s.queue h.0.0 }
  evict-Leads id (suc fuel) bytes =
      Triple-branch (λ s. is_over bytes s.queue) _ _
        (Triple-when_some (λ s. oldest s.items) (λ item. evict_item f item >> evict f fuel bytes) _
          (λ item.
            Triple-imp (OfQueue (Chosen id item)) (λ _. OfQueue (Fits id bytes)) (λ _. OfQueue R) _
              (λ s h. (h.0.0, h.1)) (λ a s h. h) (λ e s h. h)
              (Triple-bind (λ _. OfQueue (Evicting id)) (evict_item f item)
                (λ _. evict f fuel bytes) (evict_item-Leads id item)
                (λ _. evict-Leads id fuel bytes)))
          (Triple-fail capacity (λ s h. step.weakened s.queue h.0.0.0.0)))
        (Triple-return tt (λ s h. (h.0.0, h.1)))

  drop_for-Leads :
      (id : String) (bytes : ℕ) → Leads (Evicting id) (Fits id bytes) (drop_for f bytes)
  unfolding drop_for
  drop_for-Leads id bytes =
      Triple-bind (λ _. OfQueue (Fits id bytes)) (λ s. evict f (suc (length s.items)) bytes s)
        (λ _. sync_dir >> write_stats)
        (record { run = λ s h. (evict-Leads id (suc (length s.items)) bytes).run s h })
        (λ _. Quiet-finish (Fits id bytes) R (λ q h. step.weakened q h.0.0))

  make_capacity-Leads :
      (id : String) (bytes : ℕ) → Leads (Lacks id) (Fits id bytes) (make_capacity f bytes)
  unfolding make_capacity
  make_capacity-Leads id bytes =
      Triple-branch (λ s. not (is_over bytes s.queue)) _ _
        (Triple-return tt (λ s h. (h.0, ground arith)))
        (Triple-branch (λ s. not (is_telemetry s.kind) || not s.policy.drop_oldest) _ _
          (Triple-fail capacity (λ s h. step.weakened s.queue h.0.0.0))
          (Triple-imp (OfQueue (Evicting id)) (λ _. OfQueue (Fits id bytes)) (λ _. OfQueue R) _
            (λ s h. (h.0.0, ground arith)) (λ a s h. h) (λ e s h. h) (drop_for-Leads id bytes)))

  -- The queue between the advance of its sequence and the write of its new item.
  abbrev Reserved : Item → Queue → Type 0
  Reserved item q =
      (before : Queue) × (q ≡ reserve_sequence before)
      × Q before
      × (find item.batch_id before.items ≡ none)
      × (is_over (length item.payload) before ≡ false)
      × (item.sequence ≡ (reserve_sequence before).stats.next_sequence)

  write_or_release-Leads :
      (item : Item) → Leads (Reserved item) (Reserved item) (write_or_release f item)
  unfolding write_or_release
  write_or_release-Leads item = record {
    run = λ s h.
        go (write_item f item s).0 (write_item f item s).1
          ((Quiet-write_item (Reserved item) (Reserved item) (λ q r. r) f item).run s h);
  }
    where
      go :
          (r : Result Err Unit) (t : Store)
          → Post {S = Store} (λ _. OfQueue (Reserved item)) (λ _. OfQueue (Reserved item)) r t
          → let o : Result Err Unit × Store = elim r [
            | ok u ↦ (ok u, t)
            | err e ↦ (err e, with_queue release_sequence t)
          ] in
            Post {S = Store} (λ _. OfQueue (Reserved item)) (λ _. OfQueue R) o.0 o.1
      go (ok u) t h = h
      go (err e) t h = subst (λ q. R (release_sequence q)) (sym h.1) (step.released h.0 h.2)

  insert_item-Leads : (item : Item) → Leads (Reserved item) R (insert_item f item)
  unfolding insert_item
  insert_item-Leads item =
      Triple-bind (λ _. OfQueue (Reserved item)) (write_or_release f item)
        (λ _. modify (with_queue (admit item)) >> (write_stats >> return (item, true)))
        (write_or_release-Leads item)
        λ _.
          Triple-bind (λ _. OfQueue R) (modify (with_queue (admit item)))
            (λ _. write_stats >> return (item, true))
            (Triple-modify (Reserved item) R R (admit item) λ q h.
              subst (λ q. R (admit item q)) (sym h.1) (step.admitted item h.0 h.3 h.4 h.5 h.2))
            λ _.
              Triple-bind (λ _. OfQueue R) write_stats (λ _. return (item, true))
                (Quiet-write_stats R R (λ q h. h)) (λ _. Triple-return (item, true) (λ s h. h))

  enqueue_new-Leads :
      (now : ℕ) (id : String) (payload : List ℕ) → Leads (Lacks id) R (enqueue_new f now id payload)
  unfolding enqueue_new
  enqueue_new-Leads now id payload =
      Triple-bind (λ _. OfQueue (Fits id (length payload))) (make_capacity f (length payload))
        (λ _. modify (with_queue reserve_sequence) >> insert)
        (make_capacity-Leads id (length payload))
        λ _.
          Triple-bind (λ _ s. Reserved (fresh_item now id payload s.queue) s.queue)
            (modify (with_queue reserve_sequence)) (λ _. insert)
            (record { run = λ s h. (s.queue, refl, h.0.0, h.0.1, h.1, refl) })
            (λ _. record {
              run = λ s h. (insert_item-Leads (fresh_item now id payload s.queue)).run s h;
            })
    where
      insert : Exec Store Err (Item × Bool)
      insert s = insert_item f (fresh_item now id payload s.queue) s

  pub enqueue-Leads :
      (now : ℕ) (id : String) (payload : List ℕ) → Leads Q R (enqueue f now id payload)
  unfolding enqueue
  enqueue-Leads now id payload =
      Triple-branch (λ s. is_blank id || is_empty payload) _ _
        (Triple-fail invalid_batch (λ s h. step.weakened s.queue h.0))
        (Triple-when_some (λ s. find id s.items) (λ found. return (found, false)) _
          (λ found. Triple-return (found, false) (λ s h. step.weakened s.queue h.0.0))
          (Triple-imp (OfQueue (Lacks id)) (λ _. OfQueue R) (λ _. OfQueue R) _ (λ s h. (h.0.0, h.1))
            (λ a s h. h) (λ e s h. h) (enqueue_new-Leads now id payload)))
