-- ===== src/Store/Runs.antt =====
-- The calls of a queue's owner, and runs of them: whatever the calls, their order and the disk do,
-- a property that each change of the queue keeps holds afterwards.
use native.Mathlib.Nat.{add-zero, add-suc, suc-add}
use ppflight_agent.Prelude.{ℕ, suc, ◌+◌, ◌≤◌, ◌<◌, String, List, [], ◌∷◌, arith, length, All}
use ppflight_agent.Prelude.Exec.{Triple-state}
use ppflight_agent.Store.Types.{Queue, Store}
use ppflight_agent.Store.Rules.{OfQueue}
use ppflight_agent.Store.Steps.{IsStep, enqueue-Leads}
use ppflight_agent.Store.Removals.{ack-Leads, nack-Leads, quarantine-Leads}
use ppflight_agent.Store.{enqueue, ack, nack, quarantine}

pub data Call : Type 0 where
  enqueue_call : ℕ → String → List ℕ → Call
  ack_call : String → Call
  nack_call : String → ℕ → List ℕ → Call
  quarantine_call : String → List ℕ → Call

module _ (f : String → String) where
  -- The state that a call leaves, whatever it returned.
  unfoldable pub perform : Call → Store → Store
  perform (enqueue_call now id payload) s = (enqueue f now id payload s).1
  perform (ack_call id) s = (ack f id s).1
  perform (nack_call id at reason) s = (nack f id at reason s).1
  perform (quarantine_call id reason) s = (quarantine f id reason s).1

  unfoldable pub run : List Call → Store → Store
  run [] s = s
  run (c ∷ cs) s = run cs (perform c s)

-- The batch that a call may take out of the queue is one of the removable ones.
abbrev pub Allowed : (String → Type 0) → Call → Type 0
Allowed Removable (ack_call id) = Removable id
Allowed Removable (quarantine_call id reason) = Removable id
Allowed Removable _ = Unit

module _ (f : String → String) (Q R : Queue → Type 0) (Removable : String → Type 0)
    (step : IsStep Q R Removable) where
  pub perform_step :
      (c : Call) (s : Store) → Allowed Removable c → Q s.queue → R (perform f c s).queue
  unfolding perform
  perform_step (enqueue_call now id payload) s a h =
      Triple-state (OfQueue Q) (OfQueue R) _ (enqueue-Leads f Q R Removable step now id payload) s h
  perform_step (ack_call id) s a h =
      Triple-state (OfQueue Q) (OfQueue R) _ (ack-Leads f Q R Removable step id a) s h
  perform_step (nack_call id at reason) s a h =
      Triple-state (OfQueue Q) (OfQueue R) _ (nack-Leads f Q R Removable step id at reason) s h
  perform_step (quarantine_call id reason) s a h =
      Triple-state (OfQueue Q) (OfQueue R) _ (quarantine-Leads f Q R Removable step id reason a) s h

-- A property that each change keeps.
module _ (f : String → String) (Q : Queue → Type 0) (Removable : String → Type 0)
    (step : IsStep Q Q Removable) where
  pub run_invariant :
      (cs : List Call) (s : Store) → All (Allowed Removable) cs → Q s.queue → Q (run f cs s).queue
  unfolding run
  run_invariant [] s a h = h
  run_invariant (c ∷ cs) s a h =
      run_invariant cs (perform f c s) a.1 (perform_step f Q Q Removable step c s a.0 h)

-- A property that weakens with the number of calls made.
module _ (f : String → String) (Q : ℕ → Queue → Type 0) (Removable : String → Type 0) (bound : ℕ)
    (step : (n : ℕ) → n < bound → IsStep (Q n) (Q (suc n)) Removable) where
  pub run_counted :
      (n : ℕ) (cs : List Call) (s : Store)
      → n + length cs ≤ bound
      → All (Allowed Removable) cs
      → Q n s.queue
      → Q (n + length cs) (run f cs s).queue
  unfolding run
  run_counted n [] s b a h = rw add-zero h
  run_counted n (c ∷ cs) s b a h =
      rw (add-suc, ← suc-add)
        (run_counted (suc n) cs (perform f c s) (omega arith) a.1
          (perform_step f (Q n) (Q (suc n)) Removable (step n (omega arith)) c s a.0 h))

-- Calls that are all allowed when nothing is asked of them.
abbrev pub Anything : String → Type 0
Anything id = Unit

pub All-Anything : (cs : List Call) → All (Allowed Anything) cs
All-Anything [] = tt
All-Anything (enqueue_call now id payload ∷ cs) = (tt, All-Anything cs)
All-Anything (ack_call id ∷ cs) = (tt, All-Anything cs)
All-Anything (nack_call id at reason ∷ cs) = (tt, All-Anything cs)
All-Anything (quarantine_call id reason ∷ cs) = (tt, All-Anything cs)
