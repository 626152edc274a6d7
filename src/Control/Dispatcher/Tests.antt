-- ===== src/Control/Dispatcher/Tests.antt =====
-- A lane with one worker and two commands.
use ppflight_agent.Prelude.{◌≡◌, refl, true, false, ◌⊎◌, [], arith}
use ppflight_agent.Control.Dispatcher.{
  heavy, Job, Dispatcher, initial, lane_for, send, submit, has_capacity, received, WorkerStep, take,
  rest, work, Reach, start, submitted, worked,
}
use ppflight_agent.Control.Dispatcher.Flight.{IsSound, Reach-IsSound}
use ppflight_agent.Control.Dispatcher.Preflight.{has_capacity-submit}

abbrev restore : Job
restore = record { id = "c1"; action = "backup.restore" }

abbrev delete : Job
delete = record { id = "c2"; action = "vm.delete" }

abbrev one_submitted : Dispatcher
one_submitted = (submit restore initial).1

abbrev one_running : Dispatcher
one_running = received heavy restore [] one_submitted

takes_restore : WorkerStep one_submitted one_running
unfolding submit send lane_for
takes_restore = take heavy restore [] refl (omega arith)

two_in_flight : Reach (submit delete one_running).1
two_in_flight = submitted delete (worked (submitted restore start) takes_restore)

Reach-IsSound_example : IsSound (submit delete one_running).1
Reach-IsSound_example = Reach-IsSound two_in_flight

room_for_delete : has_capacity delete one_submitted ≡ true
unfolding has_capacity submit send lane_for
room_for_delete = refl

has_capacity-submit_example :
    ((submit delete one_running).0 ≡ true)
    ⊎ ((one_submitted.active "c2" ≡ true) × (one_running.active "c2" ≡ false))
has_capacity-submit_example =
    has_capacity-submit {d = one_submitted} {e = one_running} delete room_for_delete
      (work rest takes_restore)
