-- ===== src/Control/Admission/Steady.antt =====
-- What an admission does between the claim of a command and its start leaves every receipt in the
-- journal, and starts nothing.
use ppflight_agent.Prelude.{
  ℕ, String, ◌≡◌, Bool, true, false, not, ◌&&◌, Option, none, some, List, ◌∷◌, ◌=ˢ◌, if◌then◌else◌,
  All, All-imp,
}
use ppflight_agent.Prelude.Exec.{
  Result, ok, err, Exec, ◌>>=◌, ◌>>◌, return, fail, Post, Triple, Triple-bind, Triple-return,
  Triple-fail, Triple-state,
}
use ppflight_agent.Prelude.Disk.{quiet}
use ppflight_agent.Control.Command.{Command}
use ppflight_agent.Control.Actions.{requires_approval}
use ppflight_agent.Control.Checks.{VerifyError}
use ppflight_agent.Control.Codes.{verification_code, is_denied}
use ppflight_agent.Control.World.{
  World, Failure, audit_unavailable, invalid_event, invalid_receipt, no_id, not_executed,
  on_journal, put_receipt, put_event,
}
use ppflight_agent.Control.Admission.{plain_receipt, is_production}
use ppflight_agent.Journal.Types.{running, rejected}
use ppflight_agent.Control.Admission.{
  Service, Moment, rejection, running_receipt, enqueue, deliver_event, enqueue_journaled,
  denied_event, enqueue_denied_audit, reject, reject_unverified, digest_of, deliver_final, named,
  settle,
}
use ppflight_agent.Journal.Types.{Receipt, Event, Journal, Outside, Err, io}
use ppflight_agent.Journal.Audit.{apply_compatibility}
use ppflight_agent.Journal.{
  complete, mark_audit_queued, mark_receipt_queued, pending_audit_for_receipt,
}
use ppflight_agent.Journal.Receipts.{HasReceipt, Keeps, quiet-Keeps}
use ppflight_agent.Journal.Receipts.Calls.{
  complete-Keeps, mark_audit_queued-Keeps, mark_receipt_queued-Keeps,
  pending_audit_for_receipt-Keeps,
}

-- The files of these commands have receipts, and these commands were started.
abbrev pub Covers : Outside → List String → List String → World → Type 0
Covers out ids st w = All (λ id. HasReceipt (out.path id) w.journal) ids × (w.started ≡ st)

-- The action leaves the receipts of any commands, and starts none.
abbrev pub Steady : Outside → {A : Type 0} → Exec World Failure A → Type 0
Steady out m =
    (ids st : List String)
    → Triple (Covers out ids st) m (λ _. Covers out ids st) (λ _. Covers out ids st)

module _ (out : Outside) {A : Type 0} where
  pub state-Steady :
      (m : Exec World Failure A)
      → ((ids st : List String) (w : World) → Covers out ids st w → Covers out ids st (m w).1)
      → Steady out m
  state-Steady m k ids st = record { run = λ w h. go (m w).0 (m w).1 (k ids st w h) }
    where
      go :
          (o : Result Failure A) (w : World)
          → Covers out ids st w
          → Post (λ _. Covers out ids st) (λ _. Covers out ids st) o w
      go (ok a) w q = q
      go (err e) w q = q

  pub return-Steady : (a : A) → Steady out (return a)
  return-Steady a ids st = Triple-return a (λ w h. h)

  pub fail-Steady : (e : Failure) → Steady out (fail {A = A} e)
  fail-Steady e ids st = Triple-fail e (λ w h. h)

  pub choose-Steady :
      (b : Bool) (m k : Exec World Failure A)
      → Steady out m
      → Steady out k
      → Steady out (if b then m else k)
  choose-Steady true m k h g = h
  choose-Steady false m k h g = g

  -- A call of the journal that keeps the receipts.
  pub on_journal-Steady : (m : Exec Journal Err A) → Keeps m → Steady out (on_journal m)
  on_journal-Steady m k = state-Steady (on_journal m) (λ ids st w h. (
    All-imp (λ id. HasReceipt (out.path id) w.journal)
        (λ id. HasReceipt (out.path id) (m w.journal).1)
        (λ id.
          Triple-state (HasReceipt (out.path id)) (HasReceipt (out.path id)) m (k (out.path id))
            w.journal)
        ids h.0,
    h.1,
  ))

module _ (out : Outside) {A B : Type 0} where
  pub bind-Steady :
      (m : Exec World Failure A) (f : A → Exec World Failure B)
      → Steady out m
      → ((a : A) → Steady out (f a))
      → Steady out (m >>= f)
  bind-Steady m f k h ids st = Triple-bind (λ _. Covers out ids st) m f (k ids st) (λ a. h a ids st)

module _ (s : Service) where
  put_receipt-Steady : (x : Receipt) → Steady s.out (put_receipt x)
  unfolding put_receipt
  put_receipt-Steady x =
      bind-Steady s.out (on_journal (quiet io)) _ (on_journal-Steady s.out (quiet io) quiet-Keeps)
        (λ _.
          state-Steady s.out (λ w. (ok tt, record w { receipts = x ∷ w.receipts }))
            (λ ids st w h. h))

  put_event-Steady : (e : Event) → Steady s.out (put_event e)
  unfolding put_event
  put_event-Steady e =
      bind-Steady s.out (on_journal (quiet io)) _ (on_journal-Steady s.out (quiet io) quiet-Keeps)
        (λ _.
          state-Steady s.out (λ w. (ok tt, record w { audits = e ∷ w.audits })) (λ ids st w h. h))

  -- A receipt that needs an ID.
  made-Steady :
      (o : Option String) (f : String → Receipt)
      → Steady s.out {A = Receipt} (elim o [ none ↦ fail no_id | some id ↦ return (f id) ])
  made-Steady none f = fail-Steady s.out no_id
  made-Steady (some id) f = return-Steady s.out (f id)

  pub running_receipt-Steady : (c : Command) (at : Moment) → Steady s.out (running_receipt s c at)
  unfolding running_receipt
  running_receipt-Steady c at = made-Steady at.running_id (λ id.
      record (plain_receipt s c at.now id running "COMMAND_STARTED") {
        accepted = true;
        asynchronous = true;
      })

  enqueue-Steady : (x : Receipt) → Steady s.out (enqueue s x)
  unfolding enqueue
  enqueue-Steady x =
      choose-Steady s.out (s.is_valid_receipt (apply_compatibility x))
        (put_receipt (apply_compatibility x)) (fail invalid_receipt)
        (put_receipt-Steady (apply_compatibility x)) (fail-Steady s.out invalid_receipt)

  deliver_event-Steady : (id : String) (e : Event) → Steady s.out (deliver_event s id e)
  unfolding deliver_event
  deliver_event-Steady id e =
      bind-Steady s.out (if s.has_audit_sink then put_event e else fail audit_unavailable) _
        (choose-Steady s.out s.has_audit_sink (put_event e) (fail audit_unavailable)
          (put_event-Steady e) (fail-Steady s.out audit_unavailable))
        (λ _.
          on_journal-Steady s.out (mark_audit_queued s.out id e.event_id)
            (mark_audit_queued-Keeps s.out id e.event_id))

  pub enqueue_journaled-Steady :
      (id : String) (x : Receipt) → Steady s.out (enqueue_journaled s id x)
  unfolding enqueue_journaled
  enqueue_journaled-Steady id x =
      bind-Steady s.out (on_journal (pending_audit_for_receipt s.out id x.receipt_id)) _
        (on_journal-Steady s.out (pending_audit_for_receipt s.out id x.receipt_id)
          (pending_audit_for_receipt-Keeps s.out id x.receipt_id))
        (λ event.
          bind-Steady s.out (elim event [ none ↦ return tt | some e ↦ deliver_event s id e ]) _
            (delivered event)
            (λ _. bind-Steady s.out (enqueue s x) _ (enqueue-Steady x) (λ _.
              on_journal-Steady s.out (mark_receipt_queued s.out id x.receipt_id)
                (mark_receipt_queued-Keeps s.out id x.receipt_id))))
    where
      delivered :
          (event : Option Event)
          → Steady s.out {A = Unit}
              (elim event [ none ↦ return tt | some e ↦ deliver_event s id e ])
      delivered none = return-Steady s.out tt
      delivered (some e) = deliver_event-Steady id e

  enqueue_denied_audit-Steady :
      (c : Command) (x : Receipt) (now : ℕ) → Steady s.out (enqueue_denied_audit s c x now)
  unfolding enqueue_denied_audit
  enqueue_denied_audit-Steady c x now = go s.has_audit_sink (denied_event s c x now)
    where
      go :
          (b : Bool) (o : Option Event)
          → Steady s.out {A = Unit} (
              if not b
              then fail audit_unavailable
              else elim o [ none ↦ fail invalid_event | some e ↦ do put_event e; enqueue s x ])
      go false o = fail-Steady s.out audit_unavailable
      go true none = fail-Steady s.out invalid_event
      go true (some e) =
          bind-Steady s.out (put_event e) _ (put_event-Steady e) (λ _. enqueue-Steady x)

  rejection-Steady :
      (c : Command) (code : String) (at : Moment) → Steady s.out (rejection s c code at)
  unfolding rejection
  rejection-Steady c code at =
      made-Steady at.rejection_id (λ id. record (plain_receipt s c at.now id rejected code) {
        dry_run = not (is_production s);
      })

  pub reject-Steady :
      (c : Command) (code : String) (audited : Bool) (at : Moment)
      → Steady s.out (reject s c code audited at)
  unfolding reject
  reject-Steady c code audited at =
      bind-Steady s.out (rejection s c code at) _ (rejection-Steady c code at) (λ x.
        choose-Steady s.out audited (enqueue_denied_audit s c x at.now) (enqueue s x)
          (enqueue_denied_audit-Steady c x at.now) (enqueue-Steady x))

  pub reject_unverified-Steady :
      (c : Command) (e : VerifyError) (at : Moment) → Steady s.out (reject_unverified s c e at)
  unfolding reject_unverified
  reject_unverified-Steady c e at =
      choose-Steady s.out (is_denied e && requires_approval c.action && not s.has_audit_sink)
        (reject s c "AUDIT_UNAVAILABLE" false at)
        (reject s c (verification_code e) (is_denied e && requires_approval c.action) at)
        (reject-Steady c "AUDIT_UNAVAILABLE" false at)
        (reject-Steady c (verification_code e) (is_denied e && requires_approval c.action) at)

  deliver_final-Steady :
      (c : Command) (x : Receipt) (lost : Bool) → Steady s.out (deliver_final s c x lost)
  unfolding deliver_final
  deliver_final-Steady c x lost =
      choose-Steady s.out (lost && x.receipt_id =ˢ "") (fail not_executed)
        (enqueue_journaled s c.command_id x) (fail-Steady s.out not_executed)
        (enqueue_journaled-Steady c.command_id x)

  pub settle-Steady : (c : Command) (o : Receipt × Bool) → Steady s.out (settle s c o)
  unfolding settle
  settle-Steady c (x, lost) =
      bind-Steady s.out (on_journal (complete s.out c.command_id (digest_of s c) (named s c x))) _
        (on_journal-Steady s.out (complete s.out c.command_id (digest_of s c) (named s c x))
          (complete-Keeps s.out c.command_id (digest_of s c) (named s c x)))
        (λ _. deliver_final-Steady c (named s c x) lost)
