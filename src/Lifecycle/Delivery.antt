-- ===== src/Lifecycle/Delivery.antt =====
-- Each incident is delivered to both outboxes: what `MarkQueued` records, and what it leaves alone.
use ppflight_agent.Prelude.{
  ℕ, ◌≡◌, refl, ap, sym, Bool, true, false, not, inl, inr, List, [], ◌∷◌, map, arith, Bool-cases,
}
use ppflight_agent.Lifecycle.Types.{Domain, website, monitoring, other, Incident, Document, Session}
use ppflight_agent.Lifecycle.{
  awaits, pending_for, mark_all, any_awaits, retained, persist, mark_queued,
}

-- The incident with the domain's delivery recorded, and all else as it was.
abbrev pub acknowledged : Domain → Incident → Incident
acknowledged d i = record {
  event_id = i.event_id;
  previous_boot_id = i.previous_boot_id;
  previous_started_at = i.previous_started_at;
  observed_at = i.observed_at;
  website_queued = elim d [
    | website ↦ true
    | monitoring ↦ i.website_queued
    | other ↦ i.website_queued
  ];
  monitoring_queued = elim d [
    | website ↦ i.monitoring_queued
    | monitoring ↦ true
    | other ↦ i.monitoring_queued
  ];
}

not-false : (b : Bool) → not b ≡ false → b ≡ true
not-false true h = refl
not-false false h = absurd (cc)

none_awaits : (d : Domain) (is : List Incident) → any_awaits d is ≡ false → pending_for d is ≡ []
unfolding any_awaits pending_for
none_awaits d [] h = refl
none_awaits d (i ∷ is) h = ground (arith, none_awaits d is)

website_done : (is : List Incident) → pending_for website (retained (mark_all website is)) ≡ []
unfolding pending_for retained mark_all awaits
website_done [] = refl
website_done (i ∷ is) = ground (arith, website_done is)

monitoring_done :
    (is : List Incident) → pending_for monitoring (retained (mark_all monitoring is)) ≡ []
unfolding pending_for retained mark_all awaits
monitoring_done [] = refl
monitoring_done (i ∷ is) = ground (arith, monitoring_done is)

monitoring_kept :
    (is : List Incident)
    → pending_for monitoring (retained (mark_all website is))
      ≡ map (acknowledged website) (pending_for monitoring is)
unfolding pending_for retained mark_all awaits
monitoring_kept [] = refl
monitoring_kept (i ∷ is) = ground (arith, monitoring_kept is)

website_kept :
    (is : List Incident)
    → pending_for website (retained (mark_all monitoring is))
      ≡ map (acknowledged monitoring) (pending_for website is)
unfolding pending_for retained mark_all awaits
website_kept [] = refl
website_kept (i ∷ is) = ground (arith, website_kept is)

-- Where nothing awaits the domain, every incident has its delivery recorded.
acknowledged_before : (d : Domain) (i : Incident) → awaits d i ≡ false → acknowledged d i ≡ i
unfolding awaits
acknowledged_before website i h =
    ap (λ b. record i { website_queued = b }) (sym (not-false i.website_queued h))
acknowledged_before monitoring i h =
    ap (λ b. record i { monitoring_queued = b }) (sym (not-false i.monitoring_queued h))
acknowledged_before other i h = refl

nothing_new :
    (d e : Domain) (is : List Incident)
    → any_awaits d is ≡ false
    → pending_for e is ≡ map (acknowledged d) (pending_for e is)
unfolding any_awaits pending_for
nothing_new d e [] h = refl
nothing_new d e (i ∷ is) h =
    ground (arith, nothing_new d e is (ground arith), acknowledged_before d i (ground arith))

abbrev pub opposite : Domain → Domain
opposite website = monitoring
opposite monitoring = website
opposite other = other

abbrev pub is_domain : Domain → Bool
is_domain website = true
is_domain monitoring = true
is_domain other = false

module _ (encoded_size : Document → ℕ) where
  pub persist-value : (s : Session) → (persist encoded_size s).1.value ≡ s.value
  unfolding persist
  persist-value s = refl

  -- After `MarkQueued` for a domain, failed or not, nothing awaits that domain in the session, and
  -- those that await the other domain are the incidents that did before, in the same order, each as it
  -- was but for the recorded delivery.
  pub mark_queued_delivers :
      (d : Domain) (s : Session)
      → is_domain d ≡ true
      → let after = (mark_queued encoded_size d s).1.value.pending in
        (pending_for d after ≡ [])
        × (pending_for (opposite d) after
            ≡ map (acknowledged d) (pending_for (opposite d) s.value.pending))
  unfolding mark_queued
  mark_queued_delivers website s h = elim (Bool-cases (any_awaits website s.value.pending)) [
    | inl e ↦ rw (e, persist-value) (website_done s.value.pending, monitoring_kept s.value.pending)
    | inr e ↦
        rw e
          (none_awaits website s.value.pending e, nothing_new website monitoring s.value.pending e)
  ]
  mark_queued_delivers monitoring s h = elim (Bool-cases (any_awaits monitoring s.value.pending)) [
    | inl e ↦ rw (e, persist-value) (monitoring_done s.value.pending, website_kept s.value.pending)
    | inr e ↦
        rw e (
          none_awaits monitoring s.value.pending e,
          nothing_new monitoring website s.value.pending e,
        )
  ]
  mark_queued_delivers other s h = absurd (cc)
