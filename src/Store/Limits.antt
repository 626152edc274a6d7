-- ===== src/Store/Limits.antt =====
-- The policy of a queue bounds what it holds.
use ppflight_agent.Prelude.{◌≤◌, ◌<◌, String, ◌≡◌, refl, false, List, arith, length}
use ppflight_agent.Store.Types.{Item, Queue, Store}
use ppflight_agent.Store.Steps.{IsStep}
use ppflight_agent.Store.Runs.{Call, run, run_invariant, Anything, All-Anything}
use ppflight_agent.Store.{is_over, admit, reserve_sequence}

-- A limit of 0 is no limit.
pub record IsWithinPolicy (q : Queue) : Type 0 where
  pub items_within : 0 < q.policy.max_items → q.stats.pending_items ≤ q.policy.max_items
  pub bytes_within : 0 < q.policy.max_bytes → q.stats.pending_bytes ≤ q.policy.max_bytes

-- Fewer items and bytes stay within.
fewer :
    (q r : Queue)
    → q.policy ≡ r.policy
    → r.stats.pending_items ≤ q.stats.pending_items
    → r.stats.pending_bytes ≤ q.stats.pending_bytes
    → IsWithinPolicy q
    → IsWithinPolicy r
fewer q r p i b v = record {
  items_within = λ h. ground (arith, v.items_within);
  bytes_within = λ h. ground (arith, v.bytes_within);
}

admit-IsWithinPolicy :
    (item : Item) (q : Queue)
    → is_over (length item.payload) q ≡ false
    → IsWithinPolicy (admit item (reserve_sequence q))
unfolding is_over
admit-IsWithinPolicy item q h = record {
  items_within = λ pos. ground arith;
  bytes_within = λ pos. ground arith;
}

IsWithinPolicy-IsStep : IsStep IsWithinPolicy IsWithinPolicy Anything
IsWithinPolicy-IsStep = record {
  weakened = λ q v. v;
  evicted = λ item q o t v. fewer q _ refl (omega arith) (omega arith) v;
  released = λ q v. fewer q _ refl (omega arith) (omega arith) v;
  admitted = λ item q n o e v. admit-IsWithinPolicy item q o;
  acked = λ item q r h v. fewer q _ refl (omega arith) (omega arith) v;
  retried = λ at reason item q h v. fewer q _ refl (omega arith) (omega arith) v;
  buried = λ at reason item q r h v. fewer q _ refl (omega arith) (omega arith) v;
}

-- Whatever calls a queue receives and whatever the disk does, its pending counters never exceed the
-- limits of its policy, a limit of 0 meaning none, if they did not exceed them before.
pub run-IsWithinPolicy :
    (f : String → String) (cs : List Call) (s : Store)
    → IsWithinPolicy s.queue
    → IsWithinPolicy (run f cs s).queue
run-IsWithinPolicy f cs s h =
    run_invariant f IsWithinPolicy Anything IsWithinPolicy-IsStep cs s (All-Anything cs) h
