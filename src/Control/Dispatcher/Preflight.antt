-- ===== src/Control/Dispatcher/Preflight.antt =====
-- What the admission's preflight promises about the submission after it.
use ppflight_agent.Prelude.{
  ℕ, ◌≤◌, ◌<◌, String, ◌≡◌, ap, ◌∙◌, true, false, ◌⊎◌, inl, inr, arith, length, Bool-cases,
}
use ppflight_agent.Control.Dispatcher.{
  Lane, console, heavy, critical, normal, Job, LaneState, Dispatcher, buffer, lane_state, with_lane,
  with_active, lane_for, send, submit, has_capacity, WorkerStep, take, finish, Workers, rest, work,
}
use ppflight_agent.Control.Dispatcher.Flight.{active-with_lane, lane_state-active}

abbrev waiting : Lane → Dispatcher → ℕ
waiting l d = length (lane_state l d).queued

-- No lane has more waiting, and no command is active that was not.
record Drained (d e : Dispatcher) : Type 0 where
  fewer : (l : Lane) → waiting l e ≤ waiting l d
  older : (id : String) → d.active id ≡ false → e.active id ≡ false

waiting-with_lane :
    (l : Lane) (s : LaneState) (d : Dispatcher)
    → length s.queued ≤ waiting l d
    → (k : Lane) → waiting k (with_lane l s d) ≤ waiting k d
waiting-with_lane console s d h console = h
waiting-with_lane console s d h k = omega arith
waiting-with_lane heavy s d h heavy = h
waiting-with_lane heavy s d h k = omega arith
waiting-with_lane critical s d h critical = h
waiting-with_lane critical s d h k = omega arith
waiting-with_lane normal s d h normal = h
waiting-with_lane normal s d h k = omega arith

WorkerStep-Drained : {d e : Dispatcher} → WorkerStep d e → Drained d e
WorkerStep-Drained {d} (take l c cs q room) = record {
  fewer = waiting-with_lane l _ d (omega (arith, ap length q));
  older = λ id h. ap (λ f. f id) (active-with_lane l _ d) ∙ h;
}
WorkerStep-Drained {d} (finish l c others p) =
    let d' : Dispatcher = record d { active = with_active c.id false d.active } in
    record {
      fewer = λ k. omega (
        arith,
        waiting-with_lane l (record (lane_state l d) { running = others }) d'
            (omega (arith, ap (λ s. length s.queued) (lane_state-active l d d'.active))) k,
        ap (λ s. length s.queued) (lane_state-active k d d'.active),
      );
      older = λ id h.
          ap (λ f. f id) (active-with_lane l (record (lane_state l d) { running = others }) d')
          ∙ ground arith;
    }

Workers-Drained : {d e : Dispatcher} → Workers d e → Drained d e
Workers-Drained rest = record { fewer = λ l. omega arith; older = λ id h. h }
Workers-Drained (work r w) =
    let a = Workers-Drained r in
    let b = WorkerStep-Drained w in
    record {
      fewer = λ l. omega (arith, a.fewer l, b.fewer l);
      older = λ id h. b.older id (a.older id h);
    }

send_fits : (l : Lane) (c : Job) (d : Dispatcher) → waiting l d < buffer l → (send l c d).0 ≡ true
unfolding send
send_fits l c d h = ground arith

-- A submission that follows a successful preflight succeeds, whatever the workers do in between,
-- unless the command was active at the preflight and has finished since.
pub has_capacity-submit :
    {d e : Dispatcher} (c : Job)
    → has_capacity c d ≡ true
    → Workers d e
    → ((submit c e).0 ≡ true) ⊎ ((d.active c.id ≡ true) × (e.active c.id ≡ false))
unfolding has_capacity submit
has_capacity-submit {d} {e} c p w = elim (Bool-cases (e.active c.id)) [
  | inl a ↦ inl (ground arith)
  | inr a ↦ elim (Bool-cases (d.active c.id)) [
    | inl b ↦ inr (b, a)
    | inr b ↦
        let fits : (send (lane_for c.action) c e).0 ≡ true =
          send_fits (lane_for c.action) c e
            (ground (arith, (Workers-Drained w).fewer (lane_for c.action))) in
        inl (ground arith)
  ]
]
