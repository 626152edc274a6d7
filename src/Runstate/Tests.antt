-- ===== src/Runstate/Tests.antt =====
-- A process that loses a write and is restarted, and the theorem at it.
use ppflight_agent.Prelude.{◌≡◌, refl, Bool, true, false, some, none, List, [], ◌∷◌, arith}
use ppflight_agent.Prelude.Disk.{quiet, syscall, atomic_write}
use ppflight_agent.Runstate.{
  absent, website, monitoring, clean_depth, is_root, persist, decode, resume, open_checked,
  open_state, next,
}
use ppflight_agent.Prelude.Text.{codes}
use ppflight_agent.Runstate.Events.{System, Event, ask, restart, step, issued}
use ppflight_agent.Runstate.Monotone.{Climbs, issued_climb}

-- The nineteenth call, the rename of the second request, fails; so does its directory's sync later.
abbrev faults : List Bool
faults =
    true ∷ true ∷ true ∷ true ∷ true ∷ true ∷ true ∷ true ∷ true ∷ true ∷ true ∷ true ∷ true ∷ true
    ∷ true ∷ true ∷ true ∷ true ∷ true ∷ true ∷ true ∷ true ∷ true ∷ false ∷ []

abbrev down : System
down = record { process = none; disk = record { files = absent; outcomes = faults } }

abbrev events : List Event
events =
    restart "/var/lib/agent/run.json" (some "boot-1")
    ∷ ask website
    ∷ ask website
    ∷ ask monitoring
    ∷ restart "/var/lib/agent/run.json" (some "boot-2")
    ∷ ask website
    ∷ []

-- The unsaved number is given out again, after the failure, by the next request.
events_issue : issued website events down ≡ 1 ∷ 2 ∷ []
unfolding issued step next open_state open_checked resume decode persist is_root clean_depth quiet
    syscall atomic_write
events_issue = refl

root_paths : (is_root (codes "/a/..") ≡ true) × (is_root (codes "/a") ≡ false)
unfolding is_root
root_paths = (refl, refl)

issued_climb_example : Climbs 0 (issued website events down)
issued_climb_example =
    issued_climb website 0 events down
      (record { file_ahead = omega arith; process_ahead = λ v e. omega arith })
