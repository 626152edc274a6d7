-- ===== src/Store/Sequences.antt =====
-- Sequence numbers are given out in increasing order and never twice among the pending items.
use mathlib.Core.Path.{subst, subst₂}
use ppflight_agent.Prelude.{
  ℕ, suc, ◌+◌, ◌-◌, ◌^◌, ◌≤◌, ◌<◌, String, ◌≡◌, refl, ap, sym, some, none, List, [], ◌∷◌, ◌++◌,
  arith, length, ◌=ˢ◌, All, All-append, All-imp, Bool-cases, inl, inr,
}
use ppflight_agent.Store.Types.{Item, Queue, Store, u64}
use ppflight_agent.Store.Items.{find, put, delete}
use ppflight_agent.Store.Members.{put_absent, All-delete}
use ppflight_agent.Store.Steps.{IsStep}
use ppflight_agent.Store.Runs.{Call, run, run_counted, Anything, All-Anything}
use ppflight_agent.Store.{nacked, forget, admit, reserve_sequence, release_sequence}

abbrev Later : Item → Item → Type 0
Later x y = x.sequence < y.sequence

abbrev AtMost : ℕ → Item → Type 0
AtMost n x = x.sequence ≤ n

-- In the order of the list, which is that of arrival, the sequences increase.
abbrev pub Increasing : List Item → Type 0
Increasing [] = Unit
Increasing (x ∷ xs) = All (Later x) xs × Increasing xs

-- The sequences increase up to the last one given out, which is at most `n`.
pub record IsSequenced (n : ℕ) (q : Queue) : Type 0 where
  pub increasing : Increasing q.items
  pub issued : All (AtMost q.stats.next_sequence) q.items
  pub bounded : q.stats.next_sequence ≤ n

Increasing-delete : (id : String) (xs : List Item) → Increasing xs → Increasing (delete id xs)
unfolding delete
Increasing-delete id [] h = tt
Increasing-delete id (x ∷ xs) h = elim (Bool-cases (x.batch_id =ˢ id)) [
  | inl e ↦ rw e (Increasing-delete id xs h.1)
  | inr e ↦ rw e (All-delete (Later x) id xs h.0, Increasing-delete id xs h.1)
]

-- A replaced item keeps its sequence.
All-put_found :
    (P : Item → Type 0) (item x : Item) (xs : List Item)
    → (P x → P item)
    → find item.batch_id xs ≡ some x
    → All P xs
    → All P (put item xs)
unfolding find put
All-put_found P item x [] k h a = absurd (cc h)
All-put_found P item x (y ∷ ys) k h a = elim (Bool-cases (y.batch_id =ˢ item.batch_id)) [
  | inl e ↦ let same : y ≡ x = ground arith in rw e (k (subst P same a.0), a.1)
  | inr e ↦ rw e (a.0, All-put_found P item x ys k (rw e at h) a.1)
]

Increasing-put_found :
    (item x : Item) (xs : List Item)
    → x.sequence ≡ item.sequence
    → find item.batch_id xs ≡ some x
    → Increasing xs
    → Increasing (put item xs)
unfolding find put
Increasing-put_found item x [] p h a = absurd (cc h)
Increasing-put_found item x (y ∷ ys) p h a = elim (Bool-cases (y.batch_id =ˢ item.batch_id)) [
  | inl e ↦
      let same : y ≡ x = ground arith in
      rw e (
        All-imp (Later y) (Later item) (λ z l. omega (arith, ap (λ (t : Item). t.sequence) same)) ys
            a.0,
        a.1,
      )
  | inr e ↦ rw e (
    All-put_found (Later y) item x ys (λ l. omega arith) (rw e at h) a.0,
    Increasing-put_found item x ys p (rw e at h) a.1,
  )
]

Increasing-append :
    (item : Item) (n : ℕ) (xs : List Item)
    → n < item.sequence
    → All (AtMost n) xs
    → Increasing xs
    → Increasing (xs ++ item ∷ [])
Increasing-append item n [] l a h = (tt, tt)
Increasing-append item n (x ∷ xs) l a h = (
  All-append (Later x) xs (item ∷ []) h.0 (omega arith, tt),
  Increasing-append item n xs l a.1 h.1,
)

admit-IsSequenced :
    (n : ℕ) (item : Item) (q : Queue)
    → suc n < 2 ^ 64
    → find item.batch_id q.items ≡ none
    → item.sequence ≡ (reserve_sequence q).stats.next_sequence
    → IsSequenced n q
    → IsSequenced (suc n) (admit item (reserve_sequence q))
admit-IsSequenced n item q w f e v = record {
  increasing = rw (put_absent item q.items f) (
      Increasing-append item q.stats.next_sequence q.items (omega (arith, v.bounded)) v.issued
        v.increasing);
  issued = rw (put_absent item q.items f) (
      All-append (AtMost u) q.items (item ∷ [])
        (All-imp (AtMost q.stats.next_sequence) (AtMost u) (λ x h. omega (arith, v.bounded)) q.items
          v.issued)
        (omega arith, tt));
  bounded = omega (arith, v.bounded);
}
  where
    u : ℕ
    u = (reserve_sequence q).stats.next_sequence

released_exact : (n : ℕ) → suc n < 2 ^ 64 → u64 (u64 (n + 1) + (2 ^ 64 - 1)) ≡ n
released_exact n h = omega arith

release-IsSequenced :
    (n : ℕ) (q : Queue)
    → suc n < 2 ^ 64
    → IsSequenced n q
    → IsSequenced (suc n) (release_sequence (reserve_sequence q))
release-IsSequenced n q w v =
    let back : u64 (u64 (q.stats.next_sequence + 1) + (2 ^ 64 - 1)) ≡ q.stats.next_sequence =
      released_exact q.stats.next_sequence (omega (arith, v.bounded)) in
    record {
      increasing = v.increasing;
      issued = subst (λ m. All (AtMost m) q.items) (sym back) v.issued;
      bounded = omega (arith, back, v.bounded);
    }

forget-IsSequenced :
    (n m : ℕ) (item : Item) (q : Queue) → n ≤ m → IsSequenced n q → IsSequenced m (forget item q)
forget-IsSequenced n m item q l v = record {
  increasing = Increasing-delete item.batch_id q.items v.increasing;
  issued = All-delete (AtMost q.stats.next_sequence) item.batch_id q.items v.issued;
  bounded = omega (arith, v.bounded);
}

IsSequenced-of :
    (n : ℕ) (q r : Queue)
    → r.items ≡ q.items
    → r.stats.next_sequence ≡ q.stats.next_sequence
    → IsSequenced n q
    → IsSequenced n r
IsSequenced-of n q r i e v = record {
  increasing = subst Increasing (sym i) v.increasing;
  issued = subst₂ (λ m xs. All (AtMost m) xs) (sym e) (sym i) v.issued;
  bounded = omega (arith, v.bounded);
}

IsSequenced-IsStep :
    (n : ℕ) → suc n < 2 ^ 64 → IsStep (IsSequenced n) (IsSequenced (suc n)) Anything
IsSequenced-IsStep n w = record {
  weakened = λ q v. record {
    increasing = v.increasing;
    issued = v.issued;
    bounded = omega (arith, v.bounded);
  };
  evicted = λ item q o t v.
      IsSequenced-of n (forget item q) _ refl refl (forget-IsSequenced n n item q (omega arith) v);
  released = λ q v. release-IsSequenced n q w v;
  admitted = λ item q f o e v. admit-IsSequenced n item q w f e v;
  acked = λ item q r h v. forget-IsSequenced n (suc n) item q (omega arith) v;
  retried = λ at reason item q h v. record {
    increasing = Increasing-put_found (nacked at reason item) item q.items refl h v.increasing;
    issued =
        All-put_found (AtMost q.stats.next_sequence) (nacked at reason item) item q.items (λ l. l) h
          v.issued;
    bounded = omega (arith, v.bounded);
  };
  buried = λ at reason item q r h v.
      let dead : Item = nacked at reason item in
      IsSequenced-of (suc n) (forget dead q) _ refl refl
        (forget-IsSequenced n (suc n) dead q (omega arith) v);
}

-- While fewer than 2^64 sequences can have been given out, pending items stand in order of arrival
-- with strictly increasing sequences, none above the last one given out, whatever calls the queue
-- receives and whatever the disk does.
pub run-IsSequenced :
    (f : String → String) (n : ℕ) (cs : List Call) (s : Store)
    → n + length cs < 2 ^ 64
    → IsSequenced n s.queue
    → IsSequenced (n + length cs) (run f cs s).queue
run-IsSequenced f n cs s b h =
    run_counted f IsSequenced Anything (n + length cs) (λ k l. IsSequenced-IsStep k (omega arith)) n
      cs s (omega arith) (All-Anything cs) h
