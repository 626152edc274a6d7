-- ===== src/Store/Retention.antt =====
-- Metering and audit batches are never lost: a batch leaves such a queue only when it is
-- acknowledged or quarantined.
use mathlib.Core.Path.{subst}
use ppflight_agent.Prelude.{
  ℕ, ◌≤◌, String, ◌≡◌, refl, ◌∙◌, false, some, none, List, [], ◌∷◌, arith, eq_iff, ◌=ˢ◌,
  if◌then◌else◌, All, Bool-cases, inl, inr,
}
use ppflight_agent.Store.Types.{Item, Queue, Store, is_telemetry}
use ppflight_agent.Store.Items.{find, put, delete}
use ppflight_agent.Store.Steps.{IsStep}
use ppflight_agent.Store.Runs.{Call, Allowed, run, run_invariant, Anything, All-Anything}
use ppflight_agent.Store.{nacked, admit, reserve_sequence}

find-put :
    (id : String) (item : Item) (xs : List Item)
    → find id (put item xs) ≡ (if item.batch_id =ˢ id then some item else find id xs)
unfolding find put
find-put id item [] = refl
find-put id item (x ∷ xs) = ground (
  arith,
  eq_iff x.batch_id item.batch_id,
  eq_iff x.batch_id id,
  eq_iff item.batch_id id,
  find-put id item xs,
)

find-delete_ne :
    (id j : String) (xs : List Item) → (j =ˢ id) ≡ false → find id (delete j xs) ≡ find id xs
unfolding find delete
find-delete_ne id j [] h = refl
find-delete_ne id j (x ∷ xs) h =
    ground (arith, eq_iff x.batch_id j, eq_iff x.batch_id id, eq_iff j id, find-delete_ne id j xs h)

-- The queue does not evict, and holds the batch with the content that it was enqueued with.
pub record Retains (id : String) (item : Item) (q : Queue) : Type 0 where
  pub durable : is_telemetry q.kind ≡ false
  pub held : Item
  pub found : find id q.items ≡ some held
  pub same_payload : held.payload ≡ item.payload
  pub same_sequence : held.sequence ≡ item.sequence
  pub same_creation : held.created_at ≡ item.created_at
  pub more_attempts : item.attempts ≤ held.attempts

abbrev pub Other : String → String → Type 0
Other id j = (j =ˢ id) ≡ false

-- The same batch is found.
keep :
    (id : String) (item : Item) (q r : Queue)
    → is_telemetry r.kind ≡ is_telemetry q.kind
    → find id r.items ≡ find id q.items
    → Retains id item q
    → Retains id item r
keep id item q r k e v = record {
  durable = k ∙ v.durable;
  held = v.held;
  found = e ∙ v.found;
  same_payload = v.same_payload;
  same_sequence = v.same_sequence;
  same_creation = v.same_creation;
  more_attempts = v.more_attempts;
}

-- A retry of the batch itself, or of another.
retry-Retains :
    (id : String) (item : Item) (at : ℕ) (reason : List ℕ) (x : Item) (q : Queue)
    → find x.batch_id q.items ≡ some x
    → Retains id item q
    → Retains id item (record q { items = put (nacked at reason x) q.items })
retry-Retains id item at reason x q h v = elim (Bool-cases (x.batch_id =ˢ id)) [
  | inr e ↦ keep id item q _ refl (find-put id (nacked at reason x) q.items ∙ (rw e)) v
  | inl e ↦
      let same : x.batch_id ≡ id = (eq_iff x.batch_id id).0 e in
      let held : v.held ≡ x =
        ground (arith, v.found, subst (λ k. find k q.items ≡ some x) same h) in
      record {
        durable = v.durable;
        held = nacked at reason x;
        found = find-put id (nacked at reason x) q.items ∙ (rw e);
        same_payload = ground (arith, v.same_payload, held);
        same_sequence = ground (arith, v.same_sequence, held);
        same_creation = ground (arith, v.same_creation, held);
        more_attempts = ground (arith, v.more_attempts, held);
      }
]

-- A new batch has another ID, since the held one would have been found.
admit-Retains :
    (id : String) (item x : Item) (q : Queue)
    → find x.batch_id q.items ≡ none
    → Retains id item q
    → Retains id item (admit x (reserve_sequence q))
admit-Retains id item x q n v = elim (Bool-cases (x.batch_id =ˢ id)) [
  | inr e ↦ keep id item q _ refl (find-put id x q.items ∙ (rw e)) v
  | inl e ↦
      let same : x.batch_id ≡ id = (eq_iff x.batch_id id).0 e in
      absurd (cc (v.found, subst (λ k. find k q.items ≡ none) same n))
]

Retains-IsStep : (id : String) (item : Item) → IsStep (Retains id item) (Retains id item) (Other id)
Retains-IsStep id item = record {
  weakened = λ q v. v;
  evicted = λ x q o t v. absurd (cc (t, v.durable));
  released = λ q v. keep id item q _ refl refl v;
  admitted = λ x q n o e v. admit-Retains id item x q n v;
  acked = λ x q r h v. keep id item q _ refl (find-delete_ne id x.batch_id q.items r) v;
  retried = λ at reason x q h v. retry-Retains id item at reason x q h v;
  buried = λ at reason x q r h v. keep id item q _ refl (find-delete_ne id x.batch_id q.items r) v;
}

-- In a metering or audit queue a pending batch stays pending, with its payload, sequence and
-- creation time and no fewer attempts, through any calls that do not acknowledge or quarantine this
-- batch, whatever the disk does.
pub run-Retains :
    (f : String → String) (id : String) (item : Item) (cs : List Call) (s : Store)
    → is_telemetry s.kind ≡ false
    → find id s.items ≡ some item
    → All (Allowed (Other id)) cs
    → Retains id item (run f cs s).queue
run-Retains f id item cs s k h a =
    run_invariant f (Retains id item) (Other id) (Retains-IsStep id item) cs s a (record {
      durable = k;
      held = item;
      found = h;
      same_payload = refl;
      same_sequence = refl;
      same_creation = refl;
      more_attempts = omega arith;
    })

-- The drop counters of a queue that does not evict.
pub record HasDropped (items bytes : ℕ) (q : Queue) : Type 0 where
  pub durable : is_telemetry q.kind ≡ false
  pub dropped_items : q.stats.dropped_items ≡ items
  pub dropped_bytes : q.stats.dropped_bytes ≡ bytes

HasDropped-of :
    (m n : ℕ) (q r : Queue)
    → is_telemetry r.kind ≡ is_telemetry q.kind
    → r.stats.dropped_items ≡ q.stats.dropped_items
    → r.stats.dropped_bytes ≡ q.stats.dropped_bytes
    → HasDropped m n q
    → HasDropped m n r
HasDropped-of m n q r k i b v = record {
  durable = k ∙ v.durable;
  dropped_items = i ∙ v.dropped_items;
  dropped_bytes = b ∙ v.dropped_bytes;
}

HasDropped-IsStep : (m n : ℕ) → IsStep (HasDropped m n) (HasDropped m n) Anything
HasDropped-IsStep m n = record {
  weakened = λ q v. v;
  evicted = λ x q o t v. absurd (cc (t, v.durable));
  released = λ q v. HasDropped-of m n q _ refl refl refl v;
  admitted = λ x q e o p v. HasDropped-of m n q _ refl refl refl v;
  acked = λ x q r h v. HasDropped-of m n q _ refl refl refl v;
  retried = λ at reason x q h v. HasDropped-of m n q _ refl refl refl v;
  buried = λ at reason x q r h v. HasDropped-of m n q _ refl refl refl v;
}

-- The drop counters of a metering or audit queue never move, whatever calls it receives.
pub run-HasDropped :
    (f : String → String) (cs : List Call) (s : Store)
    → is_telemetry s.kind ≡ false
    → HasDropped s.stats.dropped_items s.stats.dropped_bytes (run f cs s).queue
run-HasDropped f cs s k =
    let m : ℕ = s.stats.dropped_items in
    let n : ℕ = s.stats.dropped_bytes in
    run_invariant f (HasDropped m n) Anything (HasDropped-IsStep m n) cs s (All-Anything cs)
      (record { durable = k; dropped_items = refl; dropped_bytes = refl })
