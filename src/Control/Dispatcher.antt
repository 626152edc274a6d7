-- ===== src/Control/Dispatcher.antt =====
-- internal/control/dispatcher.go: bounded lanes of commands, and the workers that drain them. The map
-- `active` is a test on command IDs; a channel is the list of what it buffers, and what a lane's
-- workers have received and not finished stands beside it.
pub mod Flight
pub mod Preflight
mod Tests
use ppflight_agent.Prelude.{
  ℕ, ◌+◌, String, Bool, true, false, ◌||◌, ◌<◌, ◌≡◌, List, [], ◌∷◌, ◌++◌, ltb, ◌=ˢ◌, if◌then◌else◌,
  length,
}

pub data Lane : Type 0 where
  console heavy critical normal : Lane

-- Of a command, what the dispatcher reads.
pub record Job : Type 0 where
  pub id : String
  pub action : String

pub record LaneState : Type 0 where
  pub queued : List Job
  pub running : List Job

pub record Dispatcher : Type 0 where
  pub active : String → Bool
  pub console_lane : LaneState
  pub heavy_lane : LaneState
  pub critical_lane : LaneState
  pub normal_lane : LaneState

-- The buffers of the four channels.
abbrev pub buffer : Lane → ℕ
buffer console = 16
buffer heavy = 4
buffer critical = 16
buffer normal = 16

-- The workers that `startWorkers` starts.
abbrev pub workers : Lane → ℕ
workers console = 8
workers heavy = 1
workers critical = 2
workers normal = 2

abbrev pub lane_state : Lane → Dispatcher → LaneState
lane_state console d = d.console_lane
lane_state heavy d = d.heavy_lane
lane_state critical d = d.critical_lane
lane_state normal d = d.normal_lane

abbrev pub with_lane : Lane → LaneState → Dispatcher → Dispatcher
with_lane console s d = record d { console_lane = s }
with_lane heavy s d = record d { heavy_lane = s }
with_lane critical s d = record d { critical_lane = s }
with_lane normal s d = record d { normal_lane = s }

abbrev pub empty_lane : LaneState
empty_lane = record { queued = []; running = [] }

-- `newCommandDispatcher`
abbrev pub initial : Dispatcher
initial = record {
  active = λ id. false;
  console_lane = empty_lane;
  heavy_lane = empty_lane;
  critical_lane = empty_lane;
  normal_lane = empty_lane;
}

abbrev pub is_console : String → Bool
is_console a = a =ˢ "vm.console.create-session" || a =ˢ "vm.console.revoke-session"

abbrev pub is_heavy : String → Bool
is_heavy a =
    a =ˢ "vm.reinstall" || a =ˢ "backup.restore" || a =ˢ "vm.delete" || a =ˢ "snapshot.rollback"

abbrev pub is_critical : String → Bool
is_critical a =
    a =ˢ "vm.create"
    || a =ˢ "vm.clone"
    || a =ˢ "vm.set-initial-resources"
    || a =ˢ "vm.set-network"
    || a =ˢ "vm.start"
    || a =ˢ "vm.shutdown"
    || a =ˢ "vm.stop"
    || a =ˢ "vm.reboot"
    || a =ˢ "vm.suspend"
    || a =ˢ "vm.resume"

-- `queueFor`
unfoldable pub lane_for : String → Lane
lane_for a =
    if is_console a
    then console
    else if is_heavy a
    then heavy
    else if is_critical a
    then critical
    else normal

abbrev pub with_active : String → Bool → (String → Bool) → String → Bool
with_active id b active k = if k =ˢ id then b else active k

abbrev pub enqueued : Lane → Job → Dispatcher → Dispatcher
enqueued l c d =
    let s = lane_state l d in
    with_lane l (record s { queued = s.queued ++ c ∷ [] })
      (record d { active = with_active c.id true d.active })

-- A non-blocking send.
unfoldable pub send : Lane → Job → Dispatcher → Bool × Dispatcher
send l c d =
    if ltb (length (lane_state l d).queued) (buffer l) then (true, enqueued l c d) else (false, d)

-- `submit`
unfoldable pub submit : Job → Dispatcher → Bool × Dispatcher
submit c d = if d.active c.id then (true, d) else send (lane_for c.action) c d

-- `hasCapacity`
unfoldable pub has_capacity : Job → Dispatcher → Bool
has_capacity c d =
    let l = lane_for c.action in d.active c.id || ltb (length (lane_state l d).queued) (buffer l)

-- A worker of a lane receives its first command.
abbrev pub received : Lane → Job → List Job → Dispatcher → Dispatcher
received l c rest d =
    with_lane l (record { queued = rest; running = c ∷ (lane_state l d).running }) d

-- A worker has executed a command, and deletes it from the map.
abbrev pub finished : Lane → Job → List Job → Dispatcher → Dispatcher
finished l c others d =
    with_lane l (record (lane_state l d) { running = others })
      (record d { active = with_active c.id false d.active })

-- One command among those that a lane's workers execute, and the others.
pub data Picks (c : Job) : List Job → List Job → Type 0 where
  here : {cs : List Job} → Picks c (c ∷ cs) cs
  there : {b : Job} {cs others : List Job} → Picks c cs others → Picks c (b ∷ cs) (b ∷ others)

-- What the workers do by themselves, at any time and in any order.
pub data WorkerStep : Dispatcher → Dispatcher → Type 0 where
  take :
      {d : Dispatcher} (l : Lane) (c : Job) (rest : List Job)
      → (lane_state l d).queued ≡ c ∷ rest
      → length (lane_state l d).running < workers l
      → WorkerStep d (received l c rest d)
  finish :
      {d : Dispatcher} (l : Lane) (c : Job) (others : List Job)
      → Picks c (lane_state l d).running others
      → WorkerStep d (finished l c others d)

pub data Workers (d : Dispatcher) : Dispatcher → Type 0 where
  rest : Workers d d
  work : {e f : Dispatcher} → Workers d e → WorkerStep e f → Workers d f

pub data Reach : Dispatcher → Type 0 where
  start : Reach initial
  submitted : {d : Dispatcher} (c : Job) → Reach d → Reach (submit c d).1
  worked : {d e : Dispatcher} → Reach d → WorkerStep d e → Reach e
