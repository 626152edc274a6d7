-- ===== src/Control/Verify/Logic.antt =====
-- Sequences of checks that passed.
use ppflight_agent.Prelude.{
  ℕ, String, ◌≡◌, refl, Bool, true, false, not, ◌&&◌, ◌||◌, ◌⊎◌, inl, inr, Option, none, some, List,
  arith, str_eq→eq,
}
use ppflight_agent.Control.Checks.{◌also◌, refuse, decoded, signed_body}

module _ {E : Type 0} where
  pub also-none : (a b : Option E) → (a also b) ≡ none → (a ≡ none) × (b ≡ none)
  also-none none b h = (refl, h)
  also-none (some e) b h = absurd (cc)

  pub refuse-none : (b : Bool) (e : E) → refuse b e ≡ none → b ≡ false
  refuse-none true e h = absurd (cc)
  refuse-none false e h = refl

  -- An error is the first check's, or the second's after a first that passed.
  pub also-some :
      (a b : Option E) (e : E) → (a also b) ≡ some e → (a ≡ some e) ⊎ ((a ≡ none) × (b ≡ some e))
  also-some none b e h = inr (refl, h)
  also-some (some d) b e h = inl h

  pub refuse-not-none : (b : Bool) (e : E) → refuse (not b) e ≡ none → b ≡ true
  refuse-not-none true e h = refl
  refuse-not-none false e h = absurd (cc)

pub and-true : (a b : Bool) → (a && b) ≡ true → (a ≡ true) × (b ≡ true)
and-true true b h = (refl, h)
and-true false b h = absurd (cc)

pub not-false : (b : Bool) → not b ≡ false → b ≡ true
not-false true h = refl
not-false false h = absurd (cc)

pub or_false : (a b : Bool) → (a || b) ≡ false → (a ≡ false) × (b ≡ false)
or_false true b h = absurd (cc)
or_false false b h = (refl, h)

pub unrefused : (a b : Bool) → (not a || b) ≡ false → a ≡ true
unrefused a b h = not-false a (or_false (not a) b h).0

pub and_false : {a b : Bool} → a ≡ true → (a && b) ≡ false → b ≡ false
and_false h k = ground arith

-- The bytes that a text encodes.
pub decoded-true :
    (o : Option (List ℕ)) (encode : List ℕ → String) (text : String) (good : List ℕ → Bool)
    → decoded o encode text good ≡ true
    → (bytes : List ℕ) × (o ≡ some bytes) × (encode bytes ≡ text) × (good bytes ≡ true)
decoded-true none encode text good h = absurd (cc)
decoded-true (some bytes) encode text good h =
    (bytes, refl, str_eq→eq (encode bytes) text (ground arith), ground arith)

pub signed_body-true :
    (o : Option (List ℕ)) (good : List ℕ → Bool)
    → signed_body o good ≡ true
    → (payload : List ℕ) × (o ≡ some payload) × (good payload ≡ true)
signed_body-true none good h = absurd (cc)
signed_body-true (some payload) good h = (payload, refl, h)
