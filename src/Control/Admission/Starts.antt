-- ===== src/Control/Admission/Starts.antt =====
-- An admission starts a command only if its file in the journal had no receipt.
use ppflight_agent.Prelude.{
  String, ◌≡◌, ◌≢◌, refl, ap, sym, ◌∙◌, Bool, true, false, not, ◌&&◌, List, [], ◌∷◌, ◌=ˢ◌,
  if◌then◌else◌, All, All-imp, eq_refl, str_eq→eq,
}
use ppflight_agent.Prelude.Exec.{
  Result, ok, err, Exec, Post, Triple, Triple-bind, Triple-imp, Triple-state,
}
use mathlib.Core.Path.{subst}
use ppflight_agent.Control.Command.{Command}
use ppflight_agent.Control.Dispatcher.{Dispatcher, submit}
use ppflight_agent.Control.World.{
  World, Failure, lane_full, failed_with, on_journal, job_of, handed_over, hand_over,
}
use ppflight_agent.Control.Admission.{
  Service, Moment, running_receipt, enqueue_journaled, digest_of, start,
}
use ppflight_agent.Control.Admission.Steady.{
  Covers, Steady, on_journal-Steady, running_receipt-Steady, enqueue_journaled-Steady,
}
use ppflight_agent.Journal.Types.{Receipt, Journal, Outside, Err}
use ppflight_agent.Journal.{begin_running}
use ppflight_agent.Journal.Receipts.{HasReceipt}
use ppflight_agent.Journal.Receipts.Calls.{begin_running-Keeps}
use ppflight_agent.Journal.Receipts.Running.{begin_running-HasReceipt}

-- No text stands twice.
abbrev pub Distinct : List String → Type 0
Distinct [] = Unit
Distinct (id ∷ ids) = All (λ other. (id =ˢ other) ≡ false) ids × Distinct ids

-- Started commands are distinct, and each has a receipt in its file of the journal.
pub record IsOnce (out : Outside) (w : World) : Type 0 where
  pub distinct : Distinct w.started
  pub recorded : All (λ id. HasReceipt (out.path id) w.journal) w.started

module _ (s : Service) where
  abbrev pub Safe : {A : Type 0} → List String → Exec World Failure A → Type 0
  Safe st m = Triple (Covers s.out st st) m (λ _. IsOnce s.out) (λ _. IsOnce s.out)

  pub Covers-IsOnce :
      (st : List String) (w : World) → Distinct st → Covers s.out st st w → IsOnce s.out w
  Covers-IsOnce st w d h = record {
    distinct = subst Distinct (sym h.1) d;
    recorded = subst (All (λ id. HasReceipt (s.out.path id) w.journal)) (sym h.1) h.0;
  }

  pub Steady-Safe :
      {A : Type 0} (st : List String) (m : Exec World Failure A)
      → Distinct st
      → Steady s.out m
      → Safe st m
  Steady-Safe st m d k =
      Triple-imp (Covers s.out st st) (λ _. Covers s.out st st) (λ _. Covers s.out st st) m
        (λ w h. h) (λ a w h. Covers-IsOnce st w d h) (λ e w h. Covers-IsOnce st w d h) (k st st)

  -- The files of these commands are not the file of the command.
  abbrev pub IsFresh : Command → List String → Type 0
  IsFresh c = All (λ id. (s.out.path c.command_id =ˢ s.out.path id) ≢ true)

  fresh_distinct :
      (c : Command) (st : List String) → IsFresh c st → All (λ id. (c.command_id =ˢ id) ≡ false) st
  fresh_distinct c st = All-imp _ _ (λ id h. go id h (c.command_id =ˢ id) refl) st
    where
      go :
          (id : String)
          → (s.out.path c.command_id =ˢ s.out.path id) ≢ true
          → (b : Bool) → (c.command_id =ˢ id) ≡ b
          → (c.command_id =ˢ id) ≡ false
      go id h true e = absurd (
          h (
            ap (λ z. s.out.path c.command_id =ˢ s.out.path z) (sym (str_eq→eq c.command_id id e))
            ∙ eq_refl (s.out.path c.command_id)))
      go id h false e = e

  -- A start that was recorded gives the command a receipt.
  begin-Covers :
      (c : Command) (x : Receipt) (st : List String)
      → Triple
          (Covers s.out st st)
          (on_journal (begin_running s.out c.command_id (digest_of s c) x))
          (λ _. Covers s.out (c.command_id ∷ st) st)
          (λ _. Covers s.out st st)
  begin-Covers c x st = record {
    run = λ w h. go w (begin w).0 refl (
        Triple-state (Covers s.out st st) (Covers s.out st st)
          (on_journal (begin_running s.out c.command_id (digest_of s c) x))
          (on_journal-Steady s.out (begin_running s.out c.command_id (digest_of s c) x)
            (begin_running-Keeps s.out c.command_id (digest_of s c) x) st st)
          w h);
  }
    where
      begin : World → Result Err (Unit {0}) × Journal
      begin w = begin_running s.out c.command_id (digest_of s c) x w.journal

      go :
          (w : World) (r : Result Err (Unit {0}))
          → (begin w).0 ≡ r
          → Covers s.out st st (record w { journal = (begin w).1 })
          → Post
              (λ _. Covers s.out (c.command_id ∷ st) st)
              (λ _. Covers s.out st st)
              (failed_with r)
              (record w { journal = (begin w).1 })
      go w (ok tt) e h = (
        (
          begin_running-HasReceipt s.out c.command_id (digest_of s c) x w.journal (begin w).1
              (ap (λ r. (r, (begin w).1)) e),
          h.0,
        ),
        h.1,
      )
      go w (err f) e h = h

  hand_over-IsOnce :
      (c : Command) (st : List String)
      → Distinct st
      → IsFresh c st
      → Triple
          (Covers s.out (c.command_id ∷ st) st)
          (hand_over c)
          (λ _. IsOnce s.out)
          (λ _. IsOnce s.out)
  unfolding hand_over
  hand_over-IsOnce c st d f = record {
    run = λ w h. go w (submit (job_of c) w.dispatcher).0 (kept w h);
  }
    where
      started : (w : World) (b : Bool) → List String
      started w b = if b then c.command_id ∷ w.started else w.started

      counted :
          (w : World) (b : Bool) (e : Dispatcher)
          → Covers s.out (c.command_id ∷ st) st w
          → IsOnce s.out (record w { dispatcher = e; started = started w b })
      counted w true e h = record {
        distinct = (
          subst (All (λ id. (c.command_id =ˢ id) ≡ false)) (sym h.1) (fresh_distinct c st f),
          subst Distinct (sym h.1) d,
        );
        recorded =
            (h.0.0, subst (All (λ id. HasReceipt (s.out.path id) w.journal)) (sym h.1) h.0.1);
      }
      counted w false e h = record {
        distinct = subst Distinct (sym h.1) d;
        recorded = subst (All (λ id. HasReceipt (s.out.path id) w.journal)) (sym h.1) h.0.1;
      }

      kept : (w : World) → Covers s.out (c.command_id ∷ st) st w → IsOnce s.out (handed_over c w)
      kept w h =
          counted w ((submit (job_of c) w.dispatcher).0 && not (w.dispatcher.active c.command_id))
            (submit (job_of c) w.dispatcher).1 h

      go :
          (w : World) (b : Bool)
          → IsOnce s.out (handed_over c w)
          → let o : Result Failure (Unit {0}) × World =
              if b then (ok tt, handed_over c w) else (err lane_full, handed_over c w) in
            Post (λ _. IsOnce s.out) (λ _. IsOnce s.out) o.0 o.1
      go w true k = k
      go w false k = k

  pub start-Safe :
      (c : Command) (at : Moment) (st : List String)
      → Distinct st
      → IsFresh c st
      → Safe st (start s c at)
  unfolding start
  start-Safe c at st d f =
      Triple-bind (λ _. Covers s.out st st) (running_receipt s c at) _
        (ended (running_receipt s c at) (running_receipt-Steady s c at st st))
        (λ x.
          Triple-bind (λ _. Covers s.out (c.command_id ∷ st) st)
            (on_journal (begin_running s.out c.command_id (digest_of s c) x)) _
            (Triple-imp (Covers s.out st st) (λ _. Covers s.out (c.command_id ∷ st) st)
              (λ _. Covers s.out st st)
              (on_journal (begin_running s.out c.command_id (digest_of s c) x)) (λ w h. h)
              (λ a w h. h) (λ e w h. Covers-IsOnce st w d h) (begin-Covers c x st))
            (λ _.
              Triple-bind (λ _. Covers s.out (c.command_id ∷ st) st)
                (enqueue_journaled s c.command_id x) _
                (Triple-imp (Covers s.out (c.command_id ∷ st) st)
                  (λ _. Covers s.out (c.command_id ∷ st) st)
                  (λ _. Covers s.out (c.command_id ∷ st) st) (enqueue_journaled s c.command_id x)
                  (λ w h. h) (λ a w h. h) (λ e w h. Covers-IsOnce st w d (h.0.1, h.1))
                  (enqueue_journaled-Steady s c.command_id x (c.command_id ∷ st) st))
                (λ _. hand_over-IsOnce c st d f)))
    where
      ended :
          {A : Type 0} (m : Exec World Failure A)
          → Triple (Covers s.out st st) m (λ _. Covers s.out st st) (λ _. Covers s.out st st)
          → Triple (Covers s.out st st) m (λ _. Covers s.out st st) (λ _. IsOnce s.out)
      ended m k =
          Triple-imp (Covers s.out st st) (λ _. Covers s.out st st) (λ _. Covers s.out st st) m
            (λ w h. h) (λ a w h. h) (λ e w h. Covers-IsOnce st w d h) k
