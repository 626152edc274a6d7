-- ===== src/Store/Items.antt =====
-- The map of pending items and the directory of records, as association lists.
use Prim.Native.Char.{code}
use ppflight_agent.Prelude.{
  ℕ, ◌+◌, String, Bool, true, false, ◌&&◌, ◌||◌, Option, none, some, List, [], ◌∷◌, ltb, leb, ◌==◌,
  ◌=ˢ◌, if◌then◌else◌, length,
}
use ppflight_agent.Prelude.Text.{is_space}
use ppflight_agent.Store.Types.{Item, FileName}

-- `strings.TrimSpace(s) == ""`
unfoldable pub is_blank : String → Bool
unfolding is_space
is_blank String.[] = true
is_blank (String.◌∷◌ c s) = is_space (code c) && is_blank s

-- items[id]
unfoldable pub find : String → List Item → Option Item
find id [] = none
find id (x ∷ xs) = if x.batch_id =ˢ id then some x else find id xs

-- delete(items, id)
unfoldable pub delete : String → List Item → List Item
delete id [] = []
delete id (x ∷ xs) = let rest = delete id xs in if x.batch_id =ˢ id then rest else x ∷ rest

-- items[item.BatchID] = item
unfoldable pub put : Item → List Item → List Item
put item [] = item ∷ []
put item (x ∷ xs) = if x.batch_id =ˢ item.batch_id then item ∷ xs else x ∷ put item xs

abbrev pub total_bytes : List Item → ℕ
total_bytes [] = 0
total_bytes (x ∷ xs) = length x.payload + total_bytes xs

-- The body of the loops of `Next` and `oldest`: a candidate, and the best so far.
abbrev pub lesser : Item → Option Item → Option Item
lesser x none = some x
lesser x (some best) = if ltb x.sequence best.sequence then some x else some best

-- The loop over the map, which Go visits in any order.
unfoldable pub oldest_from : Option Item → List Item → Option Item
oldest_from best [] = best
oldest_from best (x ∷ xs) = oldest_from (lesser x best) xs

-- `!item.NextAttempt.After(now)`
abbrev pub is_due : ℕ → Item → Bool
is_due now x = leb x.next_attempt now

unfoldable pub first_due_from : ℕ → Option Item → List Item → Option Item
first_due_from now best [] = best
first_due_from now best (x ∷ xs) =
    first_due_from now (if is_due now x then lesser x best else best) xs

abbrev pub same_name : FileName → FileName → Bool
same_name a b = a.0 == b.0 && a.1 =ˢ b.1

module _ {B : Type 0} where
  unfoldable pub has_file : FileName → List (FileName × B) → Bool
  has_file n [] = false
  has_file n ((m, b) ∷ r) = same_name m n || has_file n r

  unfoldable pub delete_file : FileName → List (FileName × B) → List (FileName × B)
  delete_file n [] = []
  delete_file n ((m, b) ∷ r) =
      let rest = delete_file n r in if same_name m n then rest else (m, b) ∷ rest

  unfoldable pub put_file : FileName → B → List (FileName × B) → List (FileName × B)
  put_file n c [] = (n, c) ∷ []
  put_file n c ((m, b) ∷ r) = if same_name m n then (n, c) ∷ r else (m, b) ∷ put_file n c r
