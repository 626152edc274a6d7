-- ===== src/Control/Dispatcher/Flight.antt =====
-- What is in flight in a reachable dispatcher: lanes in their bounds, and no command twice.
use ppflight_agent.Prelude.{
  ℕ, ◌+◌, ◌≤◌, ◌<◌, String, ◌≡◌, refl, ap, Bool, true, false, List, [], ◌∷◌, ◌++◌, arith, ltb, ◌=ˢ◌,
  if◌then◌else◌, length, length-append, eq_iff,
}
use ppflight_agent.Control.Dispatcher.{
  Lane, console, heavy, critical, normal, Job, LaneState, Dispatcher, buffer, workers, lane_state,
  with_lane, initial, lane_for, enqueued, send, submit, Picks, here, there, WorkerStep, take,
  finish, Reach, start, submitted, worked,
}

-- How many commands of a list have this ID.
abbrev pub count : String → List Job → ℕ
count id [] = 0
count id (c ∷ cs) = (if id =ˢ c.id then 1 else 0) + count id cs

abbrev pub count_lane : String → LaneState → ℕ
count_lane id s = count id s.queued + count id s.running

-- How often this ID stands in the four lanes, buffered or executing.
abbrev pub in_flight : String → Dispatcher → ℕ
in_flight id d =
    count_lane id d.console_lane
    + count_lane id d.heavy_lane
    + count_lane id d.critical_lane
    + count_lane id d.normal_lane

pub record IsBounded (l : Lane) (s : LaneState) : Type 0 where
  pub buffered : length s.queued ≤ buffer l
  pub executing : length s.running ≤ workers l

pub record IsSound (d : Dispatcher) : Type 0 where
  pub bounded : (l : Lane) → IsBounded l (lane_state l d)
  pub tracked : (id : String) → in_flight id d ≡ (if d.active id then 1 else 0)

count-append : (id : String) (xs ys : List Job) → count id (xs ++ ys) ≡ count id xs + count id ys
count-append id [] ys = omega arith
count-append id (x ∷ xs) ys = omega (arith, count-append id xs ys)

count-Picks :
    {c : Job} {cs others : List Job} (id : String)
    → Picks c cs others
    → count id cs ≡ (if id =ˢ c.id then 1 else 0) + count id others
count-Picks id here = refl
count-Picks id (there p) = omega (arith, count-Picks id p)

length-Picks : {c : Job} {cs others : List Job} → Picks c cs others → length cs ≡ length others + 1
length-Picks here = omega arith
length-Picks (there p) = omega (arith, length-Picks p)

IsBounded-with_lane :
    (l : Lane) (s : LaneState) (d : Dispatcher)
    → IsBounded l s
    → ((k : Lane) → IsBounded k (lane_state k d))
    → (k : Lane) → IsBounded k (lane_state k (with_lane l s d))
IsBounded-with_lane console s d b h console = b
IsBounded-with_lane console s d b h k = h k
IsBounded-with_lane heavy s d b h heavy = b
IsBounded-with_lane heavy s d b h k = h k
IsBounded-with_lane critical s d b h critical = b
IsBounded-with_lane critical s d b h k = h k
IsBounded-with_lane normal s d b h normal = b
IsBounded-with_lane normal s d b h k = h k

in_flight-with_lane :
    (l : Lane) (s : LaneState) (d : Dispatcher) (id : String)
    → in_flight id (with_lane l s d) + count_lane id (lane_state l d)
      ≡ in_flight id d + count_lane id s
in_flight-with_lane console s d id = omega arith
in_flight-with_lane heavy s d id = omega arith
in_flight-with_lane critical s d id = omega arith
in_flight-with_lane normal s d id = omega arith

-- The map of a dispatcher whose lane was replaced.
pub active-with_lane :
    (l : Lane) (s : LaneState) (d : Dispatcher) → (with_lane l s d).active ≡ d.active
active-with_lane console s d = refl
active-with_lane heavy s d = refl
active-with_lane critical s d = refl
active-with_lane normal s d = refl

-- The dispatcher with another map has the same lanes.
pub lane_state-active :
    (l : Lane) (d : Dispatcher) (m : String → Bool)
    → lane_state l (record d { active = m }) ≡ lane_state l d
lane_state-active console d m = refl
lane_state-active heavy d m = refl
lane_state-active critical d m = refl
lane_state-active normal d m = refl

-- A lane that is replaced, and a map that is updated at one ID, by what they add to the count.
replaced-IsSound :
    (l : Lane) (s : LaneState) (d : Dispatcher) (m : String → Bool)
    → IsSound d
    → IsBounded l s
    → ((id : String)
        → count_lane id s + (if d.active id then 1 else 0)
          ≡ count_lane id (lane_state l d) + (if m id then 1 else 0))
    → IsSound (with_lane l s (record d { active = m }))
replaced-IsSound l s d m h b e =
    let d' : Dispatcher = record d { active = m } in
    record {
      bounded = IsBounded-with_lane l s d' b (λ k. rw (lane_state-active k d m) (h.bounded k));
      tracked = λ id. rw (active-with_lane l s d') (
          omega (
            arith,
            in_flight-with_lane l s d' id,
            ap (count_lane id) (lane_state-active l d m),
            h.tracked id,
            e id,
          ));
    }

enqueued-IsSound :
    (l : Lane) (c : Job) (d : Dispatcher)
    → IsSound d
    → d.active c.id ≡ false
    → length (lane_state l d).queued < buffer l
    → IsSound (enqueued l c d)
enqueued-IsSound l c d h a room =
    replaced-IsSound l _ d _ h
      (record {
        buffered = omega (arith, length-append {0} (lane_state l d).queued (c ∷ []));
        executing = (h.bounded l).executing;
      })
      (λ id. ground (arith, count-append id (lane_state l d).queued (c ∷ []), eq_iff id c.id))

send-IsSound :
    (l : Lane) (c : Job) (d : Dispatcher)
    → IsSound d
    → d.active c.id ≡ false
    → IsSound (send l c d).1
unfolding send
send-IsSound l c d h a = go (ltb (length (lane_state l d).queued) (buffer l)) (λ r. ground arith)
  where
    go :
        (b : Bool)
        → (b ≡ true → length (lane_state l d).queued < buffer l)
        → let o : Bool × Dispatcher = if b then (true, enqueued l c d) else (false, d) in
          IsSound o.1
    go true r = enqueued-IsSound l c d h a (r refl)
    go false r = h

submit-IsSound : (c : Job) (d : Dispatcher) → IsSound d → IsSound (submit c d).1
unfolding submit
submit-IsSound c d h = go (d.active c.id) refl
  where
    go :
        (b : Bool)
        → d.active c.id ≡ b
        → let o : Bool × Dispatcher = if b then (true, d) else send (lane_for c.action) c d in
          IsSound o.1
    go true e = h
    go false e = send-IsSound (lane_for c.action) c d h e

-- A command that is in a lane is in flight.
lane-le-in_flight :
    (l : Lane) (d : Dispatcher) (id : String) → count_lane id (lane_state l d) ≤ in_flight id d
lane-le-in_flight console d id = omega arith
lane-le-in_flight heavy d id = omega arith
lane-le-in_flight critical d id = omega arith
lane-le-in_flight normal d id = omega arith

WorkerStep-IsSound : {d e : Dispatcher} → WorkerStep d e → IsSound d → IsSound e
WorkerStep-IsSound {d} (take l c rest q room) h =
    replaced-IsSound l _ d d.active h
      (record {
        buffered = omega (arith, ap length q, (h.bounded l).buffered);
        executing = omega arith;
      })
      (λ id. omega (arith, ap (count id) q))
WorkerStep-IsSound {d} (finish l c others p) h =
    replaced-IsSound l _ d _ h
      (record {
        buffered = (h.bounded l).buffered;
        executing = omega (arith, length-Picks p, (h.bounded l).executing);
      })
      (λ id.
        ground (arith, count-Picks id p, eq_iff id c.id, h.tracked id, lane-le-in_flight l d id))

initial-IsBounded : (l : Lane) → IsBounded l (lane_state l initial)
initial-IsBounded console = record { buffered = omega arith; executing = omega arith }
initial-IsBounded heavy = record { buffered = omega arith; executing = omega arith }
initial-IsBounded critical = record { buffered = omega arith; executing = omega arith }
initial-IsBounded normal = record { buffered = omega arith; executing = omega arith }

initial-IsSound : IsSound initial
initial-IsSound = record { bounded = initial-IsBounded; tracked = λ id. refl }

-- However submissions and workers interleave, no lane buffers more than its channel holds or executes
-- more than it has workers, and a command ID stands in the lanes once if the map of active commands
-- has it, and nowhere otherwise: no command is executed twice at a time, or lost while it is active.
pub Reach-IsSound : {d : Dispatcher} → Reach d → IsSound d
Reach-IsSound start = initial-IsSound
Reach-IsSound (submitted {d} c r) = submit-IsSound c d (Reach-IsSound r)
Reach-IsSound (worked r w) = WorkerStep-IsSound w (Reach-IsSound r)
