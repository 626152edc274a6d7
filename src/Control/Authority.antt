-- ===== src/Control/Authority.antt =====
-- `ApplyAssignmentAuthority` of internal/control/service.go: the inventory, the allowed actions and the revision of
-- the assignment change together, and the revision only grows. The check of the document, by
-- internal/inventory/inventory.go, is an argument.
mod Tests
use ppflight_agent.Prelude.{
  ℕ, ◌+◌, ◌≤◌, ◌<◌, String, ◌≡◌, ◌≢◌, refl, ap, sym, ◌∙◌, Bool, true, false, not, ◌&&◌, ◌||◌, ◌⊎◌,
  inl, inr, Option, none, some, List, [], ◌∷◌, arith, ltb, leb, ◌==◌, ◌=ˢ◌, if◌then◌else◌, length,
  All,
}
use ppflight_agent.Prelude.Exec.{Result, ok, err}
use ppflight_agent.Meter.Types.{Assignment}
use ppflight_agent.Control.Actions.{is_known_action}

pub record Document : Type 0 where
  pub allowed_actions : List String
  pub assignments : List Assignment

pub record Authority : Type 0 where
  pub assignments : List Assignment
  pub allowed : List String
  pub revision : ℕ
  pub is_dynamic : Bool
  pub external : Option ℕ

pub data AuthorityError : Type 0 where
  revision_invalid document_invalid actions_invalid actions_differ not_advanced : AuthorityError

abbrev pub is_seen : String → List String → Bool
is_seen a [] = false
is_seen a (b ∷ bs) = a =ˢ b || is_seen a bs

-- No action is unknown, and none is among the seen or stands twice.
unfoldable pub all_known : List String → List String → Bool
all_known seen [] = true
all_known seen (a ∷ rest) = is_known_action a && not (is_seen a seen) && all_known (a ∷ seen) rest

-- `ValidateAllowedActions`
unfoldable pub is_allowed_set : List String → Bool
is_allowed_set actions =
    not (length actions == 0) && leb (length actions) 64 && all_known [] actions

unfoldable pub same_actions : List String → List String → Bool
same_actions [] [] = true
same_actions (a ∷ as') (b ∷ bs) = a =ˢ b && same_actions as' bs
same_actions _ _ = false

-- The revision that the next one has to exceed.
abbrev pub current_revision : Authority → ℕ
current_revision a =
    if a.is_dynamic then a.revision else elim a.external [ none ↦ a.revision | some r ↦ r ]

abbrev pub applied : Document → ℕ → List String → Authority → Authority
applied doc revision actions a = record a {
  assignments = doc.assignments;
  allowed = actions;
  revision = revision;
  is_dynamic = true;
}

module _ (is_valid : Document → Bool) where
  -- `ApplyAssignmentAuthority`
  unfoldable pub apply :
      Document → ℕ → List String → Authority → Result AuthorityError Unit × Authority
  apply doc revision actions a =
      if revision == 0
      then (err revision_invalid, a)
      else if not (is_valid doc)
      then (err document_invalid, a)
      else if not (is_allowed_set actions)
      then (err actions_invalid, a)
      else if not (same_actions doc.allowed_actions actions)
      then (err actions_differ, a)
      else if leb revision (current_revision a)
      then (err not_advanced, a)
      else (ok tt, applied doc revision actions a)

  unfoldable pub apply_all : List (Document × ℕ × List String) → Authority → Authority
  apply_all [] a = a
  apply_all ((doc, revision, actions) ∷ rest) a = apply_all rest (apply doc revision actions a).1

  -- What an application changes.
  abbrev Applies :
      Document → ℕ → List String → Authority → Result AuthorityError Unit × Authority → Type 0
  Applies doc revision actions a o =
      ((o.0 ≢ ok tt) × (o.1 ≡ a))
      ⊎ ((o.0 ≡ ok tt)
          × (o.1 ≡ applied doc revision actions a)
          × (current_revision a < revision)
          × (is_allowed_set actions ≡ true))

  apply-cases :
      (doc : Document) (revision : ℕ) (actions : List String) (a : Authority)
      → Applies doc revision actions a (apply doc revision actions a)
  unfolding apply
  apply-cases doc revision actions a =
      go (revision == 0) (is_valid doc) (is_allowed_set actions)
        (same_actions doc.allowed_actions actions) (leb revision (current_revision a)) refl
        (λ h. ground arith)
    where
      go :
          (zero valid allowed same late : Bool)
          → is_allowed_set actions ≡ allowed
          → (late ≡ false → current_revision a < revision)
          → Applies doc revision actions a (
              if zero
              then (err revision_invalid, a)
              else if not valid
              then (err document_invalid, a)
              else if not allowed
              then (err actions_invalid, a)
              else if not same
              then (err actions_differ, a)
              else if late
              then (err not_advanced, a)
              else (ok tt, applied doc revision actions a))
      go true valid allowed same late e f = inl ((λ h. absurd (cc)), refl)
      go false false allowed same late e f = inl ((λ h. absurd (cc)), refl)
      go false true false same late e f = inl ((λ h. absurd (cc)), refl)
      go false true true false late e f = inl ((λ h. absurd (cc)), refl)
      go false true true true true e f = inl ((λ h. absurd (cc)), refl)
      go false true true true false e f = inr (refl, refl, f refl, e)

  apply_climbs :
      (doc : Document) (revision : ℕ) (actions : List String) (a : Authority)
      → current_revision a ≤ current_revision (apply doc revision actions a).1
  apply_climbs doc revision actions a = elim (apply-cases doc revision actions a) [
    | inl h ↦ omega (arith, ap current_revision h.1)
    | inr h ↦ omega (arith, ap current_revision h.1, h.2)
  ]

  apply_all_climbs :
      (calls : List (Document × ℕ × List String)) (a : Authority)
      → current_revision a ≤ current_revision (apply_all calls a)
  unfolding apply_all
  apply_all_climbs [] a = omega arith
  apply_all_climbs ((doc, revision, actions) ∷ rest) a = omega (
    arith,
    apply_climbs doc revision actions a,
    apply_all_climbs rest (apply doc revision actions a).1,
  )

  -- Once a revision was applied, no application of that or an earlier revision succeeds, whatever was
  -- applied in between; and one that does not succeed changes nothing.
  pub no_rollback :
      (doc new : Document) (revision older : ℕ) (actions others : List String)
      (calls : List (Document × ℕ × List String)) (a : Authority)
      → (apply doc revision actions a).0 ≡ ok tt
      → older ≤ revision
      → let b = apply_all calls (apply doc revision actions a).1 in
        ((apply new older others b).0 ≢ ok tt) × ((apply new older others b).1 ≡ b)
  no_rollback doc new revision older actions others calls a h le =
      let b = apply_all calls (apply doc revision actions a).1 in
      elim (apply-cases new older others b) [
        | inl k ↦ k
        | inr k ↦ elim (apply-cases doc revision actions a) [
          | inl m ↦ absurd (m.0 h)
          | inr m ↦ absurd (
              omega (
                arith,
                k.2,
                ap current_revision m.1,
                apply_all_climbs calls (apply doc revision actions a).1,
                le,
              ))
        ]
      ]
