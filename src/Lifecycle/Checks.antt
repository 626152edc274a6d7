-- ===== src/Lifecycle/Checks.antt =====
-- `validate` of internal/lifecycle/state.go.
use ppflight_agent.Prelude.{
  ℕ, String, Bool, true, false, not, ◌&&◌, ◌||◌, Option, none, some, List, [], ◌∷◌, leb, ◌==◌, ◌=ˢ◌,
  length,
}
use ppflight_agent.Prelude.Text.{is_uuid}
use ppflight_agent.Lifecycle.Types.{Time, State, running, clean, unknown, Incident, Document}

abbrev pub version : ℕ
version = 1

abbrev pub maximum_bytes : ℕ
maximum_bytes = 1048576

abbrev pub maximum_events : ℕ
maximum_events = 4096

abbrev pub is_valid_utc : Time → Bool
is_valid_utc t = not (t.instant == 0) && t.at_offset_zero

abbrev is_known : State → Bool
is_known running = true
is_known clean = true
is_known unknown = false

-- A running document has no exit time, a clean one has one that is not before its start.
abbrev completion : State → Option Time → Time → Bool
completion running none start = true
completion running (some t) start = false
completion clean none start = false
completion clean (some t) start = is_valid_utc t && leb start.instant t.instant
completion unknown t start = true

unfoldable pub has_event : String → List String → Bool
has_event id [] = false
has_event id (s ∷ seen) = s =ˢ id || has_event id seen

unfoldable pub incidents_valid : List String → List Incident → Bool
incidents_valid seen [] = true
incidents_valid seen (i ∷ is) =
    is_uuid i.event_id
    && is_uuid i.previous_boot_id
    && is_valid_utc i.previous_started_at
    && is_valid_utc i.observed_at
    && not (has_event i.event_id seen)
    && incidents_valid (i.event_id ∷ seen) is

unfoldable pub is_valid : Document → Bool
is_valid d =
    d.version == version
    && is_known d.state
    && is_uuid d.boot_id
    && is_valid_utc d.started_at
    && leb (length d.pending) maximum_events
    && completion d.state d.clean_exit_at d.started_at
    && incidents_valid [] d.pending
