-- ===== src/Lifecycle/Tests.antt =====
-- A process that was killed, its successor, and the theorems at them.
use ppflight_agent.Prelude.{ℕ, String, ◌≡◌, refl, true, some, [], ◌∷◌, arith, map, ◌⊎◌}
use ppflight_agent.Prelude.Exec.{ok, err}
use ppflight_agent.Prelude.Disk.{Disk, reliable, quiet, atomic_write, syscall}
use ppflight_agent.Prelude.Text.{is_uuid}
use ppflight_agent.Lifecycle.Types.{
  Time, website, monitoring, Document, clean, Session, File, present, invalid,
}
use ppflight_agent.Lifecycle.Checks.{is_valid, incidents_valid, has_event}
use ppflight_agent.Lifecycle.Delivery.{acknowledged, mark_queued_delivers}
use ppflight_agent.Lifecycle.Sessions.{
  Begun, begin_reports, IsSaved, mark_clean-IsSaved, mark_queued-IsSaved,
}
use ppflight_agent.Lifecycle.Corners.{mark_each, mark_clean_early}
use ppflight_agent.Lifecycle.{
  decode, load, carried, new_incident, write_started, begin_after, begin_checked, persist_document,
  begin, persist, any_awaits, awaits, pending_for, mark_all, retained, mark_queued, mark_clean,
  cleaned, started,
}

abbrev boot_one : String
boot_one = "11111111-1111-4111-8111-111111111111"

abbrev boot_two : String
boot_two = "22222222-2222-4222-8222-222222222222"

abbrev event : String
event = "33333333-3333-4333-8333-333333333333"

abbrev at : ℕ → Time
at n = record { instant = n; at_offset_zero = true }

abbrev killed : Document
killed = started boot_one (at 100) []

abbrev sized : Document → ℕ
sized d = 300

abbrev successor : Document
successor = started boot_two (at 200) (new_incident event killed (at 200) ∷ [])

-- What the model computes with.
opened : Disk File → Disk File
unfolding begin begin_checked begin_after write_started persist_document load decode carried
    is_valid incidents_valid has_event is_uuid quiet syscall atomic_write mark_queued mark_clean
    persist any_awaits awaits pending_for mark_all retained
opened d = d

begins :
    begin sized "state.json" boot_two (some event) (at 200) (reliable (present 301 (some killed)))
    ≡ (ok successor, reliable (present 301 (some successor)))
unfolding opened
begins = refl

abbrev session : Session
session = record { value = successor; disk = reliable (present 301 (some successor)) }

begin_reports_example :
    Begun sized
      (some event)
      boot_two
      (at 200)
      (reliable (present 301 (some killed)))
      successor
      (reliable (present 301 (some successor)))
begin_reports_example =
    begin_reports sized "state.json" boot_two (some event) (at 200)
      (reliable (present 301 (some killed))) (reliable (present 301 (some successor))) successor
      begins

mark_queued_delivers_example :
    (pending_for website (mark_queued sized website session).1.value.pending ≡ [])
    × (pending_for monitoring (mark_queued sized website session).1.value.pending
        ≡ map (acknowledged website) (pending_for monitoring session.value.pending))
mark_queued_delivers_example = mark_queued_delivers sized website session refl

mark_queued-IsSaved_example :
    ((mark_queued sized website session).1 ≡ session)
    ⊎ IsSaved sized (mark_queued sized website session).1
unfolding opened
mark_queued-IsSaved_example = mark_queued-IsSaved sized website session refl

mark_clean-IsSaved_example :
    IsSaved sized (mark_clean sized (at 300) session).1
    × ((mark_clean sized (at 300) session).1.value.state ≡ clean)
unfolding opened
mark_clean-IsSaved_example = mark_clean-IsSaved sized (at 300) session refl

abbrev huge : Document → ℕ
huge d = 1048576

mark_clean_early_example :
    let refused = mark_each sized (monitoring ∷ []) (mark_clean sized (at 150) session).1 in
    (mark_clean sized (at 150) session ≡ (err invalid, cleaned sized (at 150) session))
    × (refused.disk ≡ session.disk)
    × ((mark_queued sized website refused).0 ≡ err invalid)
unfolding opened mark_each
mark_clean_early_example =
    mark_clean_early sized (at 150) session (monitoring ∷ []) website refl (omega arith) refl refl
