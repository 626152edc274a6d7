-- ===== src/Control/Authority/Tests.antt =====
-- A revision that is offered again.
use ppflight_agent.Prelude.{Bool, ◌≡◌, ◌≢◌, refl, true, false, none, [], ◌∷◌, arith}
use ppflight_agent.Prelude.Exec.{ok}
use ppflight_agent.Control.Actions.{find_action, spec_of}
use ppflight_agent.Control.Authority.{
  Document, Authority, all_known, is_allowed_set, same_actions, apply, apply_all, no_rollback,
}

abbrev fresh : Authority
fresh = record { assignments = []; allowed = []; revision = 0; is_dynamic = false; external = none }

abbrev document : Document
document = record { allowed_actions = "vm.start" ∷ "vm.stop" ∷ []; assignments = [] }

abbrev always : Document → Bool
always doc = true

applies : (apply always document 4 document.allowed_actions fresh).0 ≡ ok tt
unfolding apply is_allowed_set all_known same_actions find_action spec_of
applies = refl

abbrev later : Authority
later =
    apply_all always ((document, 6, document.allowed_actions) ∷ [])
      (apply always document 4 document.allowed_actions fresh).1

no_rollback_example :
    ((apply always document 3 document.allowed_actions later).0 ≢ ok tt)
    × ((apply always document 3 document.allowed_actions later).1 ≡ later)
no_rollback_example =
    no_rollback always document document 4 3 document.allowed_actions document.allowed_actions
      ((document, 6, document.allowed_actions) ∷ []) fresh applies (omega arith)
