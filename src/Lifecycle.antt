-- ===== src/Lifecycle.antt =====
-- internal/lifecycle/state.go: the session file by which a restarted agent reports an unclean exit
-- of the process before it, once to each of two outboxes. A `*Session` is the record `Session`,
-- with its file behind the failing calls of `Prelude.Disk`; `encoded_size` stands for the length of
-- the document's JSON, and `NewID` is an argument that may be missing.
pub mod Types
pub mod Checks
pub mod Delivery
pub mod Sessions
pub mod Corners
mod Tests
use ppflight_agent.Prelude.{
  ℕ, suc, ◌+◌, String, Bool, true, false, not, ◌&&◌, ◌||◌, Option, none, some, List, [], ◌∷◌, ◌++◌,
  ltb, leb, ◌=ˢ◌, if◌then◌else◌, length,
}
use ppflight_agent.Prelude.Exec.{Result, ok, err, Exec, ◌>>=◌, ◌>>◌, return, fail, modify, branch}
use ppflight_agent.Prelude.Disk.{Disk, quiet, atomic_write}
use ppflight_agent.Prelude.Text.{is_uuid}
use ppflight_agent.Lifecycle.Types.{
  Time, utc, Domain, website, monitoring, other, State, running, clean, unknown, Incident, Document,
  File, absent, present, Session, Err, invalid, full, no_id, io, too_large,
}
use ppflight_agent.Lifecycle.Checks.{version, maximum_bytes, maximum_events, is_valid_utc, is_valid}

abbrev is_running : State → Bool
is_running running = true
is_running _ = false

-- What the content of the file decodes to. The bytes read are at most one more than are accepted.
unfoldable pub decode : File → Result Err (Option Document)
decode absent = ok none
decode (present size decoded) = if ltb maximum_bytes size then err too_large else elim decoded [
  | none ↦ err invalid
  | some value ↦ if is_valid value then ok (some value) else err invalid
]

unfoldable pub load : Exec (Disk File) Err (Option Document)
load = do quiet io; λ d. (decode d.files, d)

abbrev pub new_incident : String → Document → Time → Incident
new_incident event_id previous now = record {
  event_id = event_id;
  previous_boot_id = previous.boot_id;
  previous_started_at = previous.started_at;
  observed_at = utc now;
  website_queued = false;
  monitoring_queued = false;
}

-- The backlog with which a session begins.
unfoldable pub carried :
    Option String → Time → Option Document → Exec (Disk File) Err (List Incident)
carried id now none d = (ok [], d)
carried id now (some previous) d =
    if is_running previous.state
    then if leb maximum_events (length previous.pending) then (err full, d) else elim id [
      | none ↦ (err no_id, d)
      | some event_id ↦ (ok (previous.pending ++ new_incident event_id previous now ∷ []), d)
    ]
    else (ok previous.pending, d)

abbrev pub started : String → Time → List Incident → Document
started boot_id now pending = record {
  version = version;
  state = running;
  boot_id = boot_id;
  started_at = utc now;
  clean_exit_at = none;
  pending = pending;
}

-- An incident that the outbox of the domain has not taken yet.
unfoldable pub awaits : Domain → Incident → Bool
awaits website i = not i.website_queued
awaits monitoring i = not i.monitoring_queued
awaits other i = false

-- `Pending`
unfoldable pub pending_for : Domain → List Incident → List Incident
pending_for d [] = []
pending_for d (i ∷ is) = let rest = pending_for d is in if awaits d i then i ∷ rest else rest

-- The first loop of `MarkQueued`: the marked incidents, and `changed`.
abbrev marked : Domain → Incident → Incident
marked website i = record i { website_queued = true }
marked monitoring i = record i { monitoring_queued = true }
marked other i = i

unfoldable pub mark_all : Domain → List Incident → List Incident
mark_all d [] = []
mark_all d (i ∷ is) = marked d i ∷ mark_all d is

unfoldable pub any_awaits : Domain → List Incident → Bool
any_awaits d [] = false
any_awaits d (i ∷ is) = awaits d i || any_awaits d is

-- The second loop: what is queued for both domains is dropped.
unfoldable pub retained : List Incident → List Incident
retained [] = []
retained (i ∷ is) =
    let rest = retained is in
    if not i.website_queued || not i.monitoring_queued then i ∷ rest else rest

module _ (encoded_size : Document → ℕ) where
  -- A newline follows the document.
  unfoldable pub persist_document : Document → Exec (Disk File) Err Unit
  persist_document value d =
      if not (is_valid value)
      then (err invalid, d)
      else if ltb maximum_bytes (encoded_size value)
      then (err too_large, d)
      else atomic_write io (λ _. present (encoded_size value + 1) (some value)) d

  unfoldable pub write_started : Document → Exec (Disk File) Err Document
  write_started value = do persist_document value; return value

  unfoldable pub begin_after :
      String → Option String → Time → Option Document → Exec (Disk File) Err Document
  begin_after boot_id id now previous = do
    pending ← carried id now previous
    write_started (started boot_id now pending)

  unfoldable pub begin_checked : String → Option String → Time → Exec (Disk File) Err Document
  begin_checked boot_id id now = do quiet io; previous ← load; begin_after boot_id id now previous

  -- `Begin`
  unfoldable pub begin : String → String → Option String → Time → Exec (Disk File) Err Document
  begin filename boot_id id now =
      branch (λ d. filename =ˢ "" || not (is_uuid boot_id) || not (is_valid_utc now)) (fail invalid)
        (begin_checked boot_id id now)

  unfoldable pub persist : Exec Session Err Unit
  persist s = let (r, d) = persist_document s.value s.disk in (r, record s { disk = d })

  abbrev pub mark_pending : Domain → Session → Session
  mark_pending d s = record s {
    value = record s.value { pending = retained (mark_all d s.value.pending) };
  }

  -- `MarkQueued`
  unfoldable pub mark_queued : Domain → Exec Session Err Unit
  mark_queued other s = (err invalid, s)
  mark_queued d s = if any_awaits d s.value.pending then persist (mark_pending d s) else (ok tt, s)

  abbrev pub cleaned : Time → Session → Session
  cleaned now s = record s {
    value = record s.value { state = clean; clean_exit_at = some (utc now) };
  }

  -- `MarkClean`
  unfoldable pub mark_clean : Time → Exec Session Err Unit
  mark_clean now s = if not (is_valid_utc now) then (err invalid, s) else persist (cleaned now s)
