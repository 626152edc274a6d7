-- ===== src/Store/Order.antt =====
-- The scans of `oldest` and `Next` find a least sequence, whatever order the map is visited in.
use ppflight_agent.Prelude.{
  ℕ, ◌≤◌, ◌<◌, ◌≡◌, ◌≢◌, refl, sym, Option, none, some, List, [], ◌∷◌, ◌⊎◌, inl, inr, arith,
  Bool-cases, ltb,
}
use mathlib.Core.Path.{subst}
use ppflight_agent.Store.Types.{Item, Queue}
use ppflight_agent.Store.Items.{oldest_from, first_due_from, lesser, is_due}
use ppflight_agent.Store.Members.{Within}
use ppflight_agent.Store.{oldest, next}

-- The least of the items with the property `D`, as a scan that began at `best` sees it.
record Least (D : Item → Type 0) (best : Option Item) (xs : List Item) (y : Item) : Type 0 where
  found : (best ≡ some y) ⊎ (Within y xs × D y)
  below_best : (b : Item) → best ≡ some b → y.sequence ≤ b.sequence
  below_all : (x : Item) → Within x xs → D x → y.sequence ≤ x.sequence

-- An item without the property changes nothing.
Least-skip :
    (D : Item → Type 0) (best : Option Item) (x : Item) (xs : List Item) (y : Item)
    → (D x → ⊥)
    → Least D best xs y
    → Least D best (x ∷ xs) y
Least-skip D best x xs y out l = record {
  found = elim l.found [ inl e ↦ inl e | inr w ↦ inr (inr w.0, w.1) ];
  below_best = l.below_best;
  below_all = go;
}
  where
    go : (z : Item) → Within z (x ∷ xs) → D z → y.sequence ≤ z.sequence
    go z (inl e) d = absurd (out (subst D (sym e) d))
    go z (inr w) d = l.below_all z w d

lesser_found :
    (x : Item) (best : Option Item) {y : Item} → lesser x best ≡ some y → (best ≡ some y) ⊎ (x ≡ y)
lesser_found x best h = ground arith

lesser_below :
    (x : Item) (best : Option Item)
    → (m : Item) × (lesser x best ≡ some m)
      × (m.sequence ≤ x.sequence)
      × ((b : Item) → best ≡ some b → m.sequence ≤ b.sequence)
lesser_below x none = (x, refl, omega arith, λ b e. cc)
lesser_below x (some best) = elim (Bool-cases (ltb x.sequence best.sequence)) [
  | inl e ↦ (x, rw e, omega arith, λ b p. ground arith)
  | inr e ↦ (best, rw e, ground arith, λ b p. ground arith)
]

-- An item with the property is compared with the best so far.
Least-take :
    (D : Item → Type 0) (best : Option Item) (x : Item) (xs : List Item) (y : Item)
    → D x
    → Least D (lesser x best) xs y
    → Least D best (x ∷ xs) y
Least-take D best x xs y d l = record {
  found = elim l.found [
    | inl e ↦ elim (lesser_found x best e) [ inl p ↦ inl p | inr q ↦ inr (inl q, subst D q d) ]
    | inr w ↦ inr (inr w.0, w.1)
  ];
  below_best =
      λ b e. let low : y.sequence ≤ m.0.sequence = l.below_best m.0 m.1 in omega (arith, m.3 b e);
  below_all = go;
}
  where
    m :
        (m : Item) × (lesser x best ≡ some m)
        × (m.sequence ≤ x.sequence)
        × ((b : Item) → best ≡ some b → m.sequence ≤ b.sequence)
    m = lesser_below x best

    go : (z : Item) → Within z (x ∷ xs) → D z → y.sequence ≤ z.sequence
    go z (inl e) dz = rw (← e) (omega (arith, l.below_best m.0 m.1, m.2))
    go z (inr w) dz = l.below_all z w dz

abbrev pub IsDue : ℕ → Item → Type 0
IsDue now x = x.next_attempt ≤ now

abbrev Any : Item → Type 0
Any x = Unit

first-IsDue-Least :
    (now : ℕ) (best : Option Item) (xs : List Item) {y : Item}
    → first_due_from now best xs ≡ some y
    → Least (IsDue now) best xs y
unfolding first_due_from
first-IsDue-Least now best [] h = record {
  found = inl h;
  below_best = λ b e. ground arith;
  below_all = λ x w. elim w [ ];
}
first-IsDue-Least now best (x ∷ xs) {y} h = elim (Bool-cases (is_due now x)) [
  | inl due ↦
      Least-take (IsDue now) best x xs y (ground arith)
        (first-IsDue-Least now (lesser x best) xs (rw due at h))
  | inr not_due ↦
      Least-skip (IsDue now) best x xs y (λ d. ground arith)
        (first-IsDue-Least now best xs (rw not_due at h))
]

oldest_Least :
    (best : Option Item) (xs : List Item) {y : Item}
    → oldest_from best xs ≡ some y
    → Least Any best xs y
unfolding oldest_from
oldest_Least best [] h = record {
  found = inl h;
  below_best = λ b e. ground arith;
  below_all = λ x w. elim w [ ];
}
oldest_Least best (x ∷ xs) {y} h = Least-take Any best x xs y tt (oldest_Least (lesser x best) xs h)

-- A scan that began with a candidate, or met a due item, ends with one.
first_due_some : (now : ℕ) (b : Item) (xs : List Item) → first_due_from now (some b) xs ≢ none
unfolding first_due_from
first_due_some now b [] h = cc
first_due_some now b (x ∷ xs) h = elim (Bool-cases (is_due now x)) [
  | inr e ↦ first_due_some now b xs (rw e at h)
  | inl e ↦ elim (Bool-cases (ltb x.sequence b.sequence)) [
    | inl p ↦ first_due_some now x xs (rw (e, p) at h)
    | inr p ↦ first_due_some now b xs (rw (e, p) at h)
  ]
]

first_due_none :
    (now : ℕ) (xs : List Item)
    → first_due_from now none xs ≡ none
    → (x : Item) → Within x xs
    → now < x.next_attempt
unfolding first_due_from
first_due_none now [] h x w = elim w [ ]
first_due_none now (y ∷ ys) h x (inl e) = elim (Bool-cases (is_due now y)) [
  | inl due ↦ absurd (first_due_some now y ys (rw due at h))
  | inr late ↦ rw (← e) (ground arith)
]
first_due_none now (y ∷ ys) h x (inr w) = elim (Bool-cases (is_due now y)) [
  | inl due ↦ absurd (first_due_some now y ys (rw due at h))
  | inr late ↦ first_due_none now ys (rw late at h) x w
]

oldest_some : (b : Item) (xs : List Item) → oldest_from (some b) xs ≢ none
unfolding oldest_from
oldest_some b [] h = cc
oldest_some b (x ∷ xs) h = elim (Bool-cases (ltb x.sequence b.sequence)) [
  | inl p ↦ oldest_some x xs (rw p at h)
  | inr p ↦ oldest_some b xs (rw p at h)
]

pub oldest-none : (xs : List Item) → oldest xs ≡ none → xs ≡ []
unfolding oldest oldest_from
oldest-none [] h = refl
oldest-none (x ∷ xs) h = absurd (oldest_some x xs h)

pub oldest_least :
    (xs : List Item) (y : Item)
    → oldest xs ≡ some y
    → Within y xs × ((x : Item) → Within x xs → y.sequence ≤ x.sequence)
unfolding oldest
oldest_least xs y h =
    let l : Least Any none xs y = oldest_Least none xs h in
    (elim l.found [ inl e ↦ absurd (cc) | inr w ↦ w.0 ], λ x w. l.below_all x w tt)

-- What delivery takes next: a pending item that is due, with the least sequence among all that are
-- due; and nothing exactly when no pending item is due.
abbrev pub NextChoice : ℕ → List Item → Option Item → Type 0
NextChoice now xs none = (x : Item) → Within x xs → now < x.next_attempt
NextChoice now xs (some y) =
    Within y xs
    × (y.next_attempt ≤ now)
    × ((x : Item) → Within x xs → x.next_attempt ≤ now → y.sequence ≤ x.sequence)

next_choice :
    (now : ℕ) (xs : List Item) (o : Option Item)
    → first_due_from now none xs ≡ o
    → NextChoice now xs o
next_choice now xs none h = first_due_none now xs h
next_choice now xs (some y) h =
    let l : Least (IsDue now) none xs y = first-IsDue-Least now none xs h in
    elim l.found [ inl e ↦ absurd (cc) | inr w ↦ (w.0, w.1, l.below_all) ]

-- `Next` returns a pending item that is due and has the least sequence among the due ones, and
-- returns nothing only when no pending item is due.
pub next_least : (now : ℕ) (q : Queue) → NextChoice now q.items (next now q)
unfolding next
next_least now q = next_choice now q.items (first_due_from now none q.items) refl
