-- ===== src/Store/Accounting.antt =====
-- The pending counters are exact: no call of a queue, failed or not, makes them drift from the
-- items that the queue holds.
use ppflight_agent.Prelude.{
  ℕ, ◌+◌, String, ◌≡◌, refl, sym, ap, ◌∙◌, none, some, List, [], ◌∷◌, ◌++◌, arith, length,
  length-append,
}
use mathlib.Core.Path.{subst}
use ppflight_agent.Store.Types.{Item, Queue, Store}
use ppflight_agent.Store.Items.{find, put, total_bytes}
use ppflight_agent.Store.Members.{
  Distinct, delete_found, Distinct-delete, Distinct-put, put_absent, put_found, find-Within,
}
use ppflight_agent.Store.Order.{oldest_least}
use ppflight_agent.Store.Steps.{IsStep}
use ppflight_agent.Store.Runs.{Call, run, run_invariant, Anything, All-Anything}
use ppflight_agent.Store.{
  forget, admit, reserve_sequence, release_sequence, nacked, count_dropped, count_dead,
}

pub record IsAccounted (q : Queue) : Type 0 where
  pub distinct : Distinct q.items
  pub items_exact : q.stats.pending_items ≡ length q.items
  pub bytes_exact : q.stats.pending_bytes ≡ total_bytes q.items

total_bytes-append : (xs ys : List Item) → total_bytes (xs ++ ys) ≡ total_bytes xs + total_bytes ys
total_bytes-append [] ys = omega arith
total_bytes-append (x ∷ xs) ys = omega (arith, total_bytes-append xs ys)

pub forget-IsAccounted :
    (item x : Item) (q : Queue)
    → find item.batch_id q.items ≡ some x
    → length x.payload ≡ length item.payload
    → IsAccounted q
    → IsAccounted (forget item q)
forget-IsAccounted item x q f p v = record {
  distinct = Distinct-delete item.batch_id q.items v.distinct;
  items_exact = omega (arith, delete_found item.batch_id q.items v.distinct f, v.items_exact);
  bytes_exact = omega (arith, delete_found item.batch_id q.items v.distinct f, v.bytes_exact);
}

pub admit-IsAccounted :
    (item : Item) (q : Queue)
    → find item.batch_id q.items ≡ none
    → IsAccounted q
    → IsAccounted (admit item q)
admit-IsAccounted item q f v = record {
  distinct = Distinct-put item q.items v.distinct;
  items_exact =
      rw (put_absent item q.items f)
        (omega (arith, length-append q.items (item ∷ []), v.items_exact));
  bytes_exact =
      rw (put_absent item q.items f)
        (omega (arith, total_bytes-append q.items (item ∷ []), v.bytes_exact));
}

-- Only the items and the two pending counters matter.
IsAccounted-of :
    (q r : Queue)
    → q.items ≡ r.items
    → q.stats.pending_items ≡ r.stats.pending_items
    → q.stats.pending_bytes ≡ r.stats.pending_bytes
    → IsAccounted q
    → IsAccounted r
IsAccounted-of q r i n b v = record {
  distinct = subst Distinct i v.distinct;
  items_exact = sym n ∙ v.items_exact ∙ ap length i;
  bytes_exact = sym b ∙ v.bytes_exact ∙ ap total_bytes i;
}

retry-IsAccounted :
    (at : ℕ) (reason : List ℕ) (item : Item) (q : Queue)
    → find item.batch_id q.items ≡ some item
    → IsAccounted q
    → IsAccounted (record q { items = put (nacked at reason item) q.items })
retry-IsAccounted at reason item q h v =
    let (same_length, same_bytes) = put_found (nacked at reason item) q.items h refl in
    record {
      distinct = Distinct-put (nacked at reason item) q.items v.distinct;
      items_exact = v.items_exact ∙ sym same_length;
      bytes_exact = v.bytes_exact ∙ sym same_bytes;
    }

IsAccounted-IsStep : IsStep IsAccounted IsAccounted Anything
IsAccounted-IsStep = record {
  weakened = λ q v. v;
  evicted = λ item q o t v.
      IsAccounted-of (forget item q) (count_dropped item (forget item q)) refl refl refl (
        forget-IsAccounted item item q
          (find-Within item q.items v.distinct (oldest_least q.items item o).0) refl v);
  released = λ q v. IsAccounted-of q (release_sequence (reserve_sequence q)) refl refl refl v;
  admitted = λ item q n o e v.
      admit-IsAccounted item (reserve_sequence q) n
        (IsAccounted-of q (reserve_sequence q) refl refl refl v);
  acked = λ item q r h v. forget-IsAccounted item item q h refl v;
  retried = retry-IsAccounted;
  buried = λ at reason item q r h v.
      let dead : Item = nacked at reason item in
      IsAccounted-of (forget dead q) (count_dead dead (forget dead q)) refl refl refl
        (forget-IsAccounted dead item q h refl v);
}

-- Whatever calls a queue receives, in whatever order and with whatever disk failures, the pending
-- items have distinct batch IDs, and the two pending counters are the number of pending items and
-- the total size of their payloads, if this was so before.
pub run-IsAccounted :
    (f : String → String) (cs : List Call) (s : Store)
    → IsAccounted s.queue
    → IsAccounted (run f cs s).queue
run-IsAccounted f cs s h =
    run_invariant f IsAccounted Anything IsAccounted-IsStep cs s (All-Anything cs) h
