-- ===== src/Lifecycle/Corners.antt =====
-- Two corners of the session file: a document of the full size, and an exit before the start.
use mathlib.Core.Path.{subst}
use ppflight_agent.Prelude.{
  ℕ, ◌<◌, ◌≡◌, refl, ap, sym, ◌∙◌, true, false, inl, inr, some, List, [], ◌∷◌, arith, if◌then◌else◌,
  Bool-cases,
}
use ppflight_agent.Prelude.Exec.{Result, ok, err}
use ppflight_agent.Lifecycle.Types.{
  Time, utc, Domain, website, monitoring, other, Document, clean, Session, Err, invalid,
}
use ppflight_agent.Lifecycle.Checks.{is_valid, is_valid_utc}
use ppflight_agent.Lifecycle.Delivery.{is_domain}
use ppflight_agent.Lifecycle.{
  persist_document, mark_pending, persist, any_awaits, mark_queued, mark_clean, cleaned,
}

module _ (encoded_size : Document → ℕ) where
  early_invalid :
      (v : Document) (now : Time)
      → v.state ≡ clean
      → v.clean_exit_at ≡ some now
      → now.instant < v.started_at.instant
      → is_valid v ≡ false
  unfolding is_valid
  early_invalid v now c x l = ground arith

  persist_invalid :
      (s : Session) → is_valid s.value ≡ false → persist encoded_size s ≡ (err invalid, s)
  unfolding persist persist_document
  persist_invalid s h = rw h

  -- The session is clean, with an exit before its start.
  record IsStuck (now : Time) (s : Session) : Type 0 where
    state : s.value.state ≡ clean
    exit : s.value.clean_exit_at ≡ some now
    early : now.instant < s.value.started_at.instant

  -- A mark of a stuck session writes nothing, and is refused if it has something to record.
  record Refuses (now : Time) (d : Domain) (s : Session) : Type 0 where
    stuck : IsStuck now (mark_queued encoded_size d s).1
    disk : (mark_queued encoded_size d s).1.disk ≡ s.disk
    refused : any_awaits d s.value.pending ≡ true → (mark_queued encoded_size d s).0 ≡ err invalid

  mark_pending-Refused :
      (d : Domain) (s : Session) (now : Time)
      → IsStuck now s
      → persist encoded_size (mark_pending encoded_size d s)
        ≡ (err invalid, mark_pending encoded_size d s)
  mark_pending-Refused d s now h =
      persist_invalid (mark_pending encoded_size d s) (early_invalid _ now h.state h.exit h.early)

  stuck-Refuses :
      (d : Domain) (s : Session) (now : Time)
      → IsStuck now s
      → mark_queued encoded_size d s ≡ (
          if any_awaits d s.value.pending
          then persist encoded_size (mark_pending encoded_size d s)
          else (ok tt, s))
      → Refuses now d s
  stuck-Refuses d s now h e = elim (Bool-cases (any_awaits d s.value.pending)) [
    | inl y ↦
        let run : mark_queued encoded_size d s ≡ (err invalid, mark_pending encoded_size d s) =
          e ∙ (rw y (mark_pending-Refused d s now h)) in
        record {
          stuck =
              subst (λ (o : Result Err Unit × Session). IsStuck now o.1) (sym run)
                (record { state = h.state; exit = h.exit; early = h.early });
          disk = ap (λ (o : Result Err Unit × Session). o.1.disk) run;
          refused = λ _. ap (λ (o : Result Err Unit × Session). o.0) run;
        }
    | inr n ↦
        let run : mark_queued encoded_size d s ≡ (ok tt, s) = e ∙ (rw n) in
        record {
          stuck = subst (λ (o : Result Err Unit × Session). IsStuck now o.1) (sym run) h;
          disk = ap (λ (o : Result Err Unit × Session). o.1.disk) run;
          refused = λ y. absurd (cc);
        }
  ]

  mark-Refuses :
      (d : Domain) (s : Session) (now : Time) → IsStuck now s → is_domain d ≡ true → Refuses now d s
  unfolding mark_queued
  mark-Refuses website s now h k = stuck-Refuses website s now h refl
  mark-Refuses monitoring s now h k = stuck-Refuses monitoring s now h refl
  mark-Refuses other s now h k = absurd (cc)

  mark_still :
      (d : Domain) (s : Session) (now : Time)
      → IsStuck now s
      → IsStuck now (mark_queued encoded_size d s).1
        × ((mark_queued encoded_size d s).1.disk ≡ s.disk)
  unfolding mark_queued
  mark_still website s now h = let r = mark-Refuses website s now h refl in (r.stuck, r.disk)
  mark_still monitoring s now h = let r = mark-Refuses monitoring s now h refl in (r.stuck, r.disk)
  mark_still other s now h = (h, refl)

  -- The session after these marks, each tried whether or not the one before it failed.
  unfoldable pub mark_each : List Domain → Session → Session
  mark_each [] s = s
  mark_each (d ∷ ds) s = mark_each ds (mark_queued encoded_size d s).1

  mark_each_still :
      (ds : List Domain) (s : Session) (now : Time)
      → IsStuck now s
      → IsStuck now (mark_each ds s) × ((mark_each ds s).disk ≡ s.disk)
  unfolding mark_each
  mark_each_still [] s now h = (h, refl)
  mark_each_still (d ∷ ds) s now h =
      let (k, same) = mark_still d s now h in
      let (l, kept) = mark_each_still ds (mark_queued encoded_size d s).1 now k in (l, kept ∙ same)

  -- A clean exit at a time before the session's start is refused and written nowhere, but the session
  -- in memory is clean from then on. After any delivery marks that follow, with no further clean exit
  -- among them, the disk is as it was before the exit, and a mark for a domain that an incident in
  -- memory still awaits is refused.
  pub mark_clean_early :
      (now : Time) (s : Session) (ds : List Domain) (d : Domain)
      → is_valid_utc now ≡ true
      → now.instant < s.value.started_at.instant
      → is_domain d ≡ true
      → any_awaits d (mark_each ds (mark_clean encoded_size now s).1).value.pending ≡ true
      → let after = mark_each ds (mark_clean encoded_size now s).1 in
        (mark_clean encoded_size now s ≡ (err invalid, cleaned encoded_size now s))
        × (after.disk ≡ s.disk)
        × ((mark_queued encoded_size d after).0 ≡ err invalid)
  unfolding mark_clean
  mark_clean_early now s ds d u l k a =
      let refused : persist encoded_size (cleaned encoded_size now s)
          ≡ (err invalid, cleaned encoded_size now s) =
        persist_invalid (cleaned encoded_size now s) (early_invalid _ (utc now) refl refl l) in
      let run : mark_clean encoded_size now s ≡ (err invalid, cleaned encoded_size now s) =
        rw (u, refused) refl in
      let first : IsStuck (utc now) (cleaned encoded_size now s) = record {
        state = refl;
        exit = refl;
        early = l;
      } in
      let end : (mark_clean encoded_size now s).1 ≡ cleaned encoded_size now s =
        ap (λ z. z.1) run in
      let stuck : IsStuck (utc now) (mark_clean encoded_size now s).1 =
        subst (IsStuck (utc now)) (sym end) first in
      let (still, disk) = mark_each_still ds (mark_clean encoded_size now s).1 (utc now) stuck in
      (run, disk ∙ ap (λ z. z.disk) end, (mark-Refuses d _ (utc now) still k).refused a)
