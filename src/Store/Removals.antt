-- ===== src/Store/Removals.antt =====
-- The calls that remove or change one pending item, by the changes of the queue that they make.
use ppflight_agent.Prelude.{ℕ, String, ◌≡◌, sym, some, List}
use ppflight_agent.Prelude.Exec.{
  Exec, Triple, Triple-bind, Triple-when_some, Triple-fail, Triple-return, modify,
}
use mathlib.Core.Path.{subst}
use ppflight_agent.Store.Types.{Item, Queue, Store, Err, not_exist}
use ppflight_agent.Store.Items.{find, put}
use ppflight_agent.Store.Calls.{
  on_disk, write_stats, sync_dir, write_item, write_dead_letter, remove_if_present, item_path,
}
use ppflight_agent.Store.Members.{batch_id-find}
use ppflight_agent.Store.Rules.{
  OfQueue, Quiet-on_disk, Quiet-write_stats, Quiet-sync_dir, Quiet-write_item,
  Quiet-write_dead_letter, Triple-modify,
}
use ppflight_agent.Store.{
  with_queue, forget, count_dead, ack_item, ack, nacked, nack_item, nack, quarantine_item,
  quarantine,
}
use ppflight_agent.Store.Steps.{IsStep}

module _ (f : String → String) (Q R : Queue → Type 0) (Removable : String → Type 0)
    (step : IsStep Q R Removable) where
  -- The two ends of an action that leads from `P` to `M` if it returns, and to `R` if it fails.
  abbrev Leads : (P M : Queue → Type 0) → {A : Type 0} → Exec Store Err A → Type 0
  Leads P M m = Triple (OfQueue P) m (λ _. OfQueue M) (λ _. OfQueue R)

  abbrev Holds : String → Item → Queue → Type 0
  Holds id item q = Q q × (find id q.items ≡ some item)

  found_self :
      (id : String) (item : Item) (q : Queue)
      → Holds id item q
      → find item.batch_id q.items ≡ some item
  found_self id item q h =
      subst (λ k. find k q.items ≡ some item) (sym (batch_id-find id q.items h.1)) h.1

  removable :
      (id : String) (item : Item) (q : Queue)
      → Holds id item q
      → Removable id
      → Removable item.batch_id
  removable id item q h allowed = subst Removable (sym (batch_id-find id q.items h.1)) allowed

  pub ack-Leads : (id : String) → Removable id → Leads Q R (ack f id)
  unfolding ack ack_item
  ack-Leads id allowed =
      Triple-when_some (λ s. find id s.items) (ack_item f) _
        (λ item.
          Triple-bind (λ _. OfQueue (Holds id item))
            (on_disk (remove_if_present (item_path f item))) _
            (Quiet-on_disk (Holds id item) R (λ q h. step.weakened q h.0)
              (remove_if_present (item_path f item)))
            λ _.
              Triple-bind (λ _. OfQueue (Holds id item)) sync_dir _
                (Quiet-sync_dir (Holds id item) R (λ q h. step.weakened q h.0))
                λ _.
                  Triple-bind (λ _. OfQueue R) (modify (with_queue (forget item)))
                    (λ _. write_stats)
                    (Triple-modify (Holds id item) R R (forget item) (λ q h.
                      step.acked item q (removable id item q h allowed) (found_self id item q h)
                        h.0))
                    (λ _. Quiet-write_stats R R (λ q h. h)))
        (Triple-return tt (λ s h. step.weakened s.queue h.0))

  pub nack-Leads : (id : String) (at : ℕ) (reason : List ℕ) → Leads Q R (nack f id at reason)
  unfolding nack nack_item
  nack-Leads id at reason =
      Triple-when_some (λ s. find id s.items) (λ item. nack_item f (nacked at reason item)) _
        (λ item.
          Triple-bind (λ _. OfQueue (Holds id item)) (write_item f (nacked at reason item)) _
            (Quiet-write_item (Holds id item) R (λ q h. step.weakened q h.0) f
              (nacked at reason item))
            λ _.
              Triple-modify (Holds id item) R R
                (λ q. record q { items = put (nacked at reason item) q.items })
                (λ q h. step.retried at reason item q (found_self id item q h) h.0))
        (Triple-fail not_exist (λ s h. step.weakened s.queue h.0))

  pub quarantine-Leads :
      (id : String) (reason : List ℕ) → Removable id → Leads Q R (quarantine f id reason)
  unfolding quarantine quarantine_item
  quarantine-Leads id reason allowed =
      Triple-when_some (λ s. find id s.items) (λ item. quarantine_item f (nacked 0 reason item)) _
        (λ item.
          let dead : Item = nacked 0 reason item in
          Triple-bind (λ _. OfQueue (Holds id item)) (write_dead_letter f dead) _
            (Quiet-write_dead_letter (Holds id item) R (λ q h. step.weakened q h.0) f dead)
            λ _.
              Triple-bind (λ _. OfQueue (Holds id item))
                (on_disk (remove_if_present (item_path f dead))) _
                (Quiet-on_disk (Holds id item) R (λ q h. step.weakened q h.0)
                  (remove_if_present (item_path f dead)))
                λ _.
                  Triple-bind (λ _. OfQueue (Holds id item)) sync_dir _
                    (Quiet-sync_dir (Holds id item) R (λ q h. step.weakened q h.0))
                    λ _.
                      Triple-bind (λ _. OfQueue R)
                        (modify (with_queue (λ q. count_dead dead (forget dead q))))
                        (λ _. write_stats)
                        (Triple-modify (Holds id item) R R (λ q. count_dead dead (forget dead q))
                          (λ q h.
                            step.buried 0 reason item q (removable id item q h allowed)
                              (found_self id item q h) h.0))
                        (λ _. Quiet-write_stats R R (λ q h. h)))
        (Triple-fail not_exist (λ s h. step.weakened s.queue h.0))
