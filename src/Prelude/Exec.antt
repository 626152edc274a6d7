-- ===== src/Prelude/Exec.antt =====
-- Methods that mutate an object and may fail: what was written before the failure stays written,
-- so the state comes back beside an error too.
use mathlib.Core.Path.{◌≡◌, refl}
use mathlib.Core.Logic.{◌⊎◌, inl, inr}
use mathlib.Core.Bool.{Bool, true, false}
use mathlib.Core.Option.{Option, none, some}

pub data Result (E A : Type 0) : Type 0 where
  ok : A → Result E A
  err : E → Result E A

abbrev pub Exec : Type 0 → Type 0 → Type 0 → Type 0
Exec S E A = S → Result E A × S

module _ {S E A B : Type 0} where
  abbrev pub after : Result E A → (A → Exec S E B) → Exec S E B
  after (ok a) f s = f a s
  after (err e) f s = (err e, s)

  infixl 5 ◌>>=◌ ◌>>◌
  abbrev pub ◌>>=◌ : Exec S E A → (A → Exec S E B) → Exec S E B
  ◌>>=◌ m f s = let (r, t) = m s in after r f t

  abbrev pub ◌>>◌ : Exec S E A → Exec S E B → Exec S E B
  m >> k = m >>= λ _. k

module _ {S E A : Type 0} where
  abbrev pub return : A → Exec S E A
  return a s = (ok a, s)

  abbrev pub fail : E → Exec S E A
  fail e s = (err e, s)

module _ {S E : Type 0} where
  abbrev pub modify : (S → S) → Exec S E Unit
  modify f s = (ok tt, f s)

module _ {S E A : Type 0} where
  -- `if test { m } else { k }` on the state.
  abbrev pub branch : (S → Bool) → Exec S E A → Exec S E A → Exec S E A
  branch test m k s = elim (test s) [ true ↦ m s | false ↦ k s ]

module _ {S E A X : Type 0} where
  -- `if x, found := look; found { f x } else { k }` on the state.
  abbrev pub when_some : (S → Option X) → (X → Exec S E A) → Exec S E A → Exec S E A
  when_some look f k s = elim (look s) [ some x ↦ f x s | none ↦ k s ]

module _ {S E A : Type 0} where
  -- A condition on the way an action ended: one for a return, one for a failure.
  abbrev pub Post : (A → S → Type 0) → (E → S → Type 0) → Result E A → S → Type 0
  Post M R (ok a) s = M a s
  Post M R (err e) s = R e s

  -- From a state with `P` the action returns with `M` or fails with `R`.
  pub record Triple (P : S → Type 0) (m : Exec S E A) (M : A → S → Type 0) (R : E → S → Type 0)
      : Type 0 where
    pub run : (s : S) → P s → Post M R (m s).0 (m s).1

module _ {S E A : Type 0} {P : S → Type 0} {M : A → S → Type 0} {R : E → S → Type 0} where
  pub Triple-return : (a : A) → ((s : S) → P s → M a s) → Triple P (return a) M R
  Triple-return a h = record { run = h }

  pub Triple-fail : (e : E) → ((s : S) → P s → R e s) → Triple P (fail e) M R
  Triple-fail e h = record { run = h }

module _ {S E A : Type 0} {P : S → Type 0} {M : A → S → Type 0} {R : E → S → Type 0} where
  pub Triple-branch :
      (test : S → Bool) (m k : Exec S E A)
      → Triple (λ s. P s × (test s ≡ true)) m M R
      → Triple (λ s. P s × (test s ≡ false)) k M R
      → Triple P (branch test m k) M R
  Triple-branch test m k tm tk = record { run = λ s h. go s (test s) (λ e. (h, e)) (λ e. (h, e)) }
    where
      go :
          (s : S) (b : Bool)
          → (b ≡ true → P s × (test s ≡ true))
          → (b ≡ false → P s × (test s ≡ false))
          → let o : Result E A × S = elim b [ true ↦ m s | false ↦ k s ] in Post M R o.0 o.1
      go s true t f = tm.run s (t refl)
      go s false t f = tk.run s (f refl)

module _ {S E A X : Type 0} {P : S → Type 0} {M : A → S → Type 0} {R : E → S → Type 0} where
  pub Triple-when_some :
      (look : S → Option X) (f : X → Exec S E A) (k : Exec S E A)
      → ((x : X) → Triple (λ s. P s × (look s ≡ some x)) (f x) M R)
      → Triple (λ s. P s × (look s ≡ none)) k M R
      → Triple P (when_some look f k) M R
  Triple-when_some look f k tf tk = record {
    run = λ s h. go s (look s) (λ x e. (h, e)) (λ e. (h, e));
  }
    where
      go :
          (s : S) (o : Option X)
          → ((x : X) → o ≡ some x → P s × (look s ≡ some x))
          → (o ≡ none → P s × (look s ≡ none))
          → let r : Result E A × S = elim o [ some x ↦ f x s | none ↦ k s ] in Post M R r.0 r.1
      go s (some x) t n = (tf x).run s (t x refl)
      go s none t n = tk.run s (n refl)

module _ {S E A B : Type 0} (R : E → S → Type 0) (N : B → S → Type 0) where
  Post-after :
      (M : A → S → Type 0) (r : Result E A) (f : A → Exec S E B) (s : S)
      → ((a : A) → Triple (M a) (f a) N R)
      → Post M R r s
      → Post N R (after r f s).0 (after r f s).1
  Post-after M (ok a) f s k h = (k a).run s h
  Post-after M (err e) f s k h = h

module _ {S E A B : Type 0} {P : S → Type 0} {R : E → S → Type 0} {N : B → S → Type 0} where
  pub Triple-bind :
      (M : A → S → Type 0) (m : Exec S E A) (f : A → Exec S E B)
      → Triple P m M R
      → ((a : A) → Triple (M a) (f a) N R)
      → Triple P (m >>= f) N R
  Triple-bind M m f t k = record { run = λ s h. Post-after R N M (m s).0 f (m s).1 k (t.run s h) }

module _ {S E A : Type 0} {P : S → Type 0} {N : A → S → Type 0} {Q : E → S → Type 0} where
  pub Triple-imp :
      (P' : S → Type 0) (M : A → S → Type 0) (R : E → S → Type 0) (m : Exec S E A)
      → ((s : S) → P s → P' s)
      → ((a : A) (s : S) → M a s → N a s)
      → ((e : E) (s : S) → R e s → Q e s)
      → Triple P' m M R
      → Triple P m N Q
  Triple-imp P' M R m pre good bad t = record {
    run = λ s h. go (m s).0 (m s).1 (t.run s (pre s h));
  }
    where
      go : (r : Result E A) (s : S) → Post M R r s → Post N Q r s
      go (ok a) s h = good a s h
      go (err e) s h = bad e s h

-- The condition on the state alone, where both ends imply it.
module _ {S E A : Type 0} (P Q : S → Type 0) (m : Exec S E A) where
  pub Triple-state : Triple P m (λ _. Q) (λ _. Q) → (s : S) → P s → Q (m s).1
  Triple-state k s h = go (m s).0 (k.run s h)
    where
      go : (r : Result E A) → Post {S = S} (λ _. Q) (λ _. Q) r (m s).1 → Q (m s).1
      go (ok a) x = x
      go (err e) x = x

module _ {S E A B : Type 0} where
  -- A sequence that returned went through its first action.
  pub bind_inversion :
      (m : Exec S E A) (f : A → Exec S E B) (s : S) {b : B} {t : S}
      → (m >>= f) s ≡ (ok b, t)
      → (a : A) × (u : S) × (m s ≡ (ok a, u)) × (f a u ≡ (ok b, t))
  bind_inversion m f s {b} {t} h = go (m s).0 (m s).1 refl h
    where
      go :
          (r : Result E A) (u : S)
          → m s ≡ (r, u)
          → after r f u ≡ (ok b, t)
          → (a : A) × (u : S) × (m s ≡ (ok a, u)) × (f a u ≡ (ok b, t))
      go (ok a) u e k = (a, u, e, k)
      go (err x) u e k = absurd (cc)

pub Result-cases :
    {E A : Type 0} (r : Result E A) → ((a : A) × (r ≡ ok a)) ⊎ ((e : E) × (r ≡ err e))
Result-cases (ok a) = inl (a, refl)
Result-cases (err e) = inr (e, refl)
