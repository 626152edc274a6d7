-- ===== src/Store/Members.antt =====
-- The association list of pending items as a map with distinct keys.
use ppflight_agent.Prelude.{
  ◌+◌, String, ◌≡◌, refl, true, false, none, some, List, [], ◌∷◌, ◌++◌, ◌⊎◌, inl, inr, arith,
  eq_iff, ◌=ˢ◌, length, All, Bool-cases,
}
use ppflight_agent.Store.Types.{Item}
use ppflight_agent.Store.Items.{find, delete, put, total_bytes}

abbrev pub Differs : String → Item → Type 0
Differs id x = (x.batch_id =ˢ id) ≡ false

-- No two items share a batch ID.
abbrev pub Distinct : List Item → Type 0
Distinct [] = Unit
Distinct (x ∷ xs) = All (Differs x.batch_id) xs × Distinct xs

-- `y` stands in the list.
abbrev pub Within : Item → List Item → Type 0
Within y [] = ⊥
Within y (x ∷ xs) = (x ≡ y) ⊎ Within y xs

delete_absent : (id : String) (xs : List Item) → All (Differs id) xs → delete id xs ≡ xs
unfolding delete
delete_absent id [] h = refl
delete_absent id (x ∷ xs) h = rw (h.0, delete_absent id xs h.1)

find_absent : (id : String) (xs : List Item) → All (Differs id) xs → find id xs ≡ none
unfolding find
find_absent id [] h = refl
find_absent id (x ∷ xs) h = rw h.0 (find_absent id xs h.1)

absent_of_find : (id : String) (xs : List Item) → find id xs ≡ none → All (Differs id) xs
unfolding find
absent_of_find id [] h = tt
absent_of_find id (x ∷ xs) h = elim (Bool-cases (x.batch_id =ˢ id)) [
  | inl e ↦ cc (rw e at h)
  | inr e ↦ (e, absent_of_find id xs (rw e at h))
]

pub find-delete_self : (id : String) (xs : List Item) → find id (delete id xs) ≡ none
unfolding find delete
find-delete_self id [] = refl
find-delete_self id (x ∷ xs) = ground (arith, find-delete_self id xs)

pub All-delete :
    (P : Item → Type 0) (id : String) (xs : List Item) → All P xs → All P (delete id xs)
unfolding delete
All-delete P id [] h = tt
All-delete P id (x ∷ xs) h = elim (Bool-cases (x.batch_id =ˢ id)) [
  | inl e ↦ rw e (All-delete P id xs h.1)
  | inr e ↦ rw e (h.0, All-delete P id xs h.1)
]

pub find-delete-none :
    (id j : String) (xs : List Item) → find id xs ≡ none → find id (delete j xs) ≡ none
find-delete-none id j xs h =
    find_absent id (delete j xs) (All-delete (Differs id) j xs (absent_of_find id xs h))

pub Distinct-delete : (id : String) (xs : List Item) → Distinct xs → Distinct (delete id xs)
unfolding delete
Distinct-delete id [] h = tt
Distinct-delete id (x ∷ xs) h = elim (Bool-cases (x.batch_id =ˢ id)) [
  | inl e ↦ rw e (Distinct-delete id xs h.1)
  | inr e ↦ rw e (All-delete (Differs x.batch_id) id xs h.0, Distinct-delete id xs h.1)
]

-- Texts that are equal differ from the same texts.
Differs-eq :
    (i j : String) (xs : List Item) → (i =ˢ j) ≡ true → All (Differs i) xs → All (Differs j) xs
Differs-eq i j xs e h = rw (← (eq_iff i j).0 e) h

pub delete_found :
    (id : String) (xs : List Item) {x : Item}
    → Distinct xs
    → find id xs ≡ some x
    → (length (delete id xs) + 1 ≡ length xs)
      × (total_bytes (delete id xs) + length x.payload ≡ total_bytes xs)
unfolding find delete
delete_found id [] d h = cc
delete_found id (y ∷ ys) {x} d h = elim (Bool-cases (y.batch_id =ˢ id)) [
  | inl e ↦
      let same : y ≡ x = ground arith in
      rw (e, delete_absent id ys (Differs-eq y.batch_id id ys e d.0), same)
        (omega arith, omega arith)
  | inr e ↦ rw e (ground (arith, delete_found id ys {x = x} d.1))
]

pub put_absent :
    (item : Item) (xs : List Item) → find item.batch_id xs ≡ none → put item xs ≡ xs ++ item ∷ []
unfolding put find
put_absent item [] h = refl
put_absent item (x ∷ xs) h = ground (arith, put_absent item xs)

pub put_found :
    (item : Item) (xs : List Item) {x : Item}
    → find item.batch_id xs ≡ some x
    → length x.payload ≡ length item.payload
    → (length (put item xs) ≡ length xs) × (total_bytes (put item xs) ≡ total_bytes xs)
unfolding find put
put_found item [] h p = cc
put_found item (y ∷ ys) {x} h p = ground (arith, put_found item ys {x = x})

All-put :
    (P : Item → Type 0) (item : Item) (xs : List Item) → P item → All P xs → All P (put item xs)
unfolding put
All-put P item [] h k = (h, tt)
All-put P item (x ∷ xs) h k = elim (Bool-cases (x.batch_id =ˢ item.batch_id)) [
  | inl e ↦ rw e (h, k.1)
  | inr e ↦ rw e (k.0, All-put P item xs h k.1)
]

Differs_sym : (i j : String) → (i =ˢ j) ≡ false → (j =ˢ i) ≡ false
Differs_sym i j h = ground (arith, eq_iff i j, eq_iff j i)

pub Distinct-put : (item : Item) (xs : List Item) → Distinct xs → Distinct (put item xs)
unfolding put
Distinct-put item [] d = (tt, tt)
Distinct-put item (x ∷ xs) d = elim (Bool-cases (x.batch_id =ˢ item.batch_id)) [
  | inl e ↦ rw e (Differs-eq x.batch_id item.batch_id xs e d.0, d.1)
  | inr e ↦ rw e (
    All-put (Differs x.batch_id) item xs (Differs_sym x.batch_id item.batch_id e) d.0,
    Distinct-put item xs d.1,
  )
]

Differs-Within :
    (id : String) (y : Item) (xs : List Item) → All (Differs id) xs → Within y xs → Differs id y
Differs-Within id y [] h w = elim w [ ]
Differs-Within id y (x ∷ xs) h (inl e) = rw (← e) h.0
Differs-Within id y (x ∷ xs) h (inr w) = Differs-Within id y xs h.1 w

pub find-Within :
    (y : Item) (xs : List Item) → Distinct xs → Within y xs → find y.batch_id xs ≡ some y
unfolding find
find-Within y [] d w = elim w [ ]
find-Within y (x ∷ xs) d (inl e) = rw (e, (eq_iff y.batch_id y.batch_id).1 refl)
find-Within y (x ∷ xs) d (inr w) =
    rw (Differs_sym y.batch_id x.batch_id (Differs-Within x.batch_id y xs d.0 w))
      (find-Within y xs d.1 w)

pub Within-find : (id : String) (xs : List Item) {y : Item} → find id xs ≡ some y → Within y xs
unfolding find
Within-find id [] h = cc
Within-find id (x ∷ xs) {y} h = elim (Bool-cases (x.batch_id =ˢ id)) [
  | inl e ↦ inl (ground arith)
  | inr e ↦ inr (Within-find id xs (rw e at h))
]

pub batch_id-find :
    (id : String) (xs : List Item) {y : Item} → find id xs ≡ some y → y.batch_id ≡ id
unfolding find
batch_id-find id [] h = cc
batch_id-find id (x ∷ xs) {y} h = ground (arith, eq_iff x.batch_id id, batch_id-find id xs {y = y})
