-- ===== src/Meter/Billing.antt =====
-- When a usage event may be billed, and how events are numbered.
use ppflight_agent.Prelude.{
  ℕ, ◌≤◌, String, ◌≡◌, refl, Bool, true, false, not, Option, none, some, List, [], ◌∷◌, arith, inl,
  inr, ltb, ◌=ˢ◌, if◌then◌else◌, All, All-append, Bool-cases,
}
use ppflight_agent.Prelude.Exec.{
  Exec, Triple, Triple-return, Triple-bind, Triple-branch, Triple-state, modify,
}
use ppflight_agent.Meter.Types.{
  Billing, shadow, active, Assignment, Guest, Snapshot, NicCounter, UsageRecord, CounterState,
  Config, Library, Draft, Err,
}
use ppflight_agent.Meter.Counters.{
  find_counter, counter_key, take_id, is_aggregate_supported, choose_epoch, is_continued, new_id,
  append_usage, append_all, append_aggregate, append_resolved, observe_assigned, observe_guests,
  billing_of, push_usage, node_of,
}
use ppflight_agent.Meter.Interfaces.{resolve}

-- The billing state that an assignment with this cutover may have in an event of this time.
abbrev pub Allowed : Config → Option ℕ → ℕ → Billing → Type 0
Allowed c cutover at billing =
    billing ≡ active → ((c.mode =ˢ "production") ≡ true) × ((t : ℕ) × (cutover ≡ some t) × (t ≤ at))

abbrev pub IsBillable : Config → UsageRecord → Type 0
IsBillable c r = Allowed c r.cutover_at r.observed_at r.billing

abbrev pub AllBillable : Config → Draft → Type 0
AllBillable c d = All (IsBillable c) d.records

shadow_Allowed : (c : Config) (cutover : Option ℕ) (at : ℕ) → Allowed c cutover at shadow
shadow_Allowed c cutover at e = absurd (cc)

cutover_Allowed :
    (c : Config) (cutover : Option ℕ) (at : ℕ) (billing : Billing)
    → (c.mode =ˢ "production") ≡ true
    → Allowed c cutover at
        (elim cutover [ none ↦ shadow | some t ↦ if ltb at t then shadow else billing ])
cutover_Allowed c none at billing p = λ e. absurd (cc)
cutover_Allowed c (some t) at billing p = go (ltb at t) refl
  where
    go : (b : Bool) → ltb at t ≡ b → Allowed c (some t) at (if b then shadow else billing)
    go true h e = absurd (cc)
    go false h e = (p, (t, refl, ground arith))

billing_of-Allowed :
    (c : Config) (at : ℕ) (a : Assignment) → Allowed c a.cutover_at at (billing_of c at a)
unfolding billing_of
billing_of-Allowed c at a = elim (Bool-cases (c.mode =ˢ "production")) [
  | inl p ↦ go (not (c.mode =ˢ "production")) (λ n. cutover_Allowed c a.cutover_at at a.billing p)
  | inr p ↦ go (not (c.mode =ˢ "production")) (λ n. absurd (ground arith))
]
  where
    go :
        (b : Bool)
        → (b ≡ false
            → Allowed c a.cutover_at at (elim a.cutover_at [
              | none ↦ shadow
              | some t ↦ if ltb at t then shadow else a.billing
            ]))
        → Allowed c a.cutover_at at (
            if b then shadow else elim a.cutover_at [
              | none ↦ shadow
              | some t ↦ if ltb at t then shadow else a.billing
            ])
    go true h = shadow_Allowed c a.cutover_at at
    go false h = h refl

aggregate_Allowed :
    (c : Config) (at : ℕ) (a : Assignment) (b : Bool) (billing : Billing)
    → Allowed c a.cutover_at at billing
    → Allowed c a.cutover_at at (if b then billing else shadow)
aggregate_Allowed c at a true billing h = h
aggregate_Allowed c at a false billing h = shadow_Allowed c a.cutover_at at

module _ (c : Config) where
  -- An action on the draft that keeps every record billable.
  abbrev Keeps : {A : Type 0} → Exec Draft Err A → Type 0
  Keeps m = Triple (AllBillable c) m (λ _. AllBillable c) (λ _. AllBillable c)

  take_id-Keeps : (ids : List (Option String)) → Keeps (take_id ids)
  take_id-Keeps [] = record { run = λ d h. h }
  take_id-Keeps (none ∷ ids) = record { run = λ d h. h }
  take_id-Keeps (some id ∷ ids) = record { run = λ d h. h }

  new_id-Keeps : Keeps new_id
  unfolding new_id
  new_id-Keeps = record { run = λ d h. (take_id-Keeps d.ids).run d h }

  choose_epoch-Keeps :
      (o : Option CounterState) (a : Assignment) (n : NicCounter) → Keeps (choose_epoch o a n)
  unfolding choose_epoch
  choose_epoch-Keeps none a n = new_id-Keeps
  choose_epoch-Keeps (some p) a n =
      Triple-branch (λ d. is_continued p a n) _ _ (Triple-return p.counter_epoch (λ d h. h.0))
        (record { run = λ d h. new_id-Keeps.run d h.0 })

  push_usage-AllBillable :
      (a : Assignment) (node : String) (at : ℕ) (billing : Billing) (n : NicCounter)
      (epoch event : String) (d : Draft)
      → Allowed c a.cutover_at at billing
      → AllBillable c d
      → AllBillable c (push_usage a node at billing n epoch event d)
  push_usage-AllBillable a node at billing n epoch event d k h =
      All-append (IsBillable c) d.records _ h (k, tt)

  append_usage-Keeps :
      (a : Assignment) (node : String) (at : ℕ) (billing : Billing) (n : NicCounter)
      → Allowed c a.cutover_at at billing
      → Keeps (append_usage a node at billing n)
  unfolding append_usage
  append_usage-Keeps a node at billing n k =
      Triple-bind (λ _. AllBillable c)
        (λ d. choose_epoch (find_counter (counter_key a n) d.state.counters) a n d) _
        (record {
          run = λ d h.
              (choose_epoch-Keeps (find_counter (counter_key a n) d.state.counters) a n).run d h;
        })
        (λ epoch.
          Triple-bind (λ _. AllBillable c) new_id
            (λ event. modify (push_usage a node at billing n epoch event)) new_id-Keeps
            (λ event. record {
              run = λ d h. push_usage-AllBillable a node at billing n epoch event d k h;
            }))

  append_all-Keeps :
      (a : Assignment) (node : String) (at : ℕ) (billing : Billing) (ns : List NicCounter)
      → Allowed c a.cutover_at at billing
      → Keeps (append_all a node at billing ns)
  unfolding append_all
  append_all-Keeps a node at billing [] k = Triple-return tt (λ d h. h)
  append_all-Keeps a node at billing (n ∷ ns) k =
      Triple-bind (λ _. AllBillable c) _ _ (append_usage-Keeps a node at billing n k)
        (λ _. append_all-Keeps a node at billing ns k)

  append_aggregate-Keeps :
      (a : Assignment) (node : String) (at : ℕ) (billing : Billing) (on : Bool) (i e : Option ℕ)
      → Allowed c a.cutover_at at billing
      → Keeps (append_aggregate a node at billing on i e)
  unfolding append_aggregate
  append_aggregate-Keeps a node at billing true (some i) (some e) k =
      append_usage-Keeps a node at _ _
        (aggregate_Allowed c at a (is_aggregate_supported a.nic_bindings) billing k)
  append_aggregate-Keeps a node at billing true (some i) none k = Triple-return tt (λ d h. h)
  append_aggregate-Keeps a node at billing true none e k = Triple-return tt (λ d h. h)
  append_aggregate-Keeps a node at billing false i e k = Triple-return tt (λ d h. h)

  append_resolved-Keeps :
      (at : ℕ) (g : Guest) (a : Assignment) (o : Option (List NicCounter))
      → Keeps (append_resolved c at g a o)
  unfolding append_resolved
  append_resolved-Keeps at g a (some ns) =
      append_all-Keeps a (node_of a g) at _ ns (billing_of-Allowed c at a)
  append_resolved-Keeps at g a none =
      append_aggregate-Keeps a (node_of a g) at _ g.is_available g.ingress g.egress
        (billing_of-Allowed c at a)

  Keeps-if : (b : Bool) (m k : Exec Draft Err Unit) → Keeps m → Keeps k → Keeps (if b then m else k)
  Keeps-if true m k x y = x
  Keeps-if false m k x y = y

  observe_assigned-Keeps :
      (l : Library) (snap : Snapshot) (g : Guest) (o : Option Assignment)
      → Keeps (observe_assigned l c snap g o)
  unfolding observe_assigned
  observe_assigned-Keeps l snap g none = Triple-return tt (λ d h. h)
  observe_assigned-Keeps l snap g (some a) =
      Keeps-if _ _ _ (Triple-return tt (λ d h. h))
        (append_resolved-Keeps snap.observed_at g a (resolve l snap g a))

  observe_guests-Keeps :
      (l : Library) (assigned : Guest → Option Assignment) (snap : Snapshot) (gs : List Guest)
      → Keeps (observe_guests l c assigned snap gs)
  unfolding observe_guests
  observe_guests-Keeps l assigned snap [] = Triple-return tt (λ d h. h)
  observe_guests-Keeps l assigned snap (g ∷ gs) =
      Triple-bind (λ _. AllBillable c) _ _
        (Keeps-if g.template _ _ (Triple-return tt (λ d h. h))
          (observe_assigned-Keeps l snap g (assigned g)))
        (λ _. observe_guests-Keeps l assigned snap gs)

  -- Whatever a snapshot holds and however the guests are assigned, an event is in the active billing
  -- state only if the agent is in production mode and the assignment's cutover is set and not after
  -- the snapshot, if this held for the events before it.
  pub observe_guests-billable :
      (l : Library) (assigned : Guest → Option Assignment) (snap : Snapshot) (gs : List Guest)
      (d : Draft)
      → AllBillable c d
      → AllBillable c (observe_guests l c assigned snap gs d).1
  observe_guests-billable l assigned snap gs d h =
      Triple-state (AllBillable c) (AllBillable c) (observe_guests l c assigned snap gs)
        (observe_guests-Keeps l assigned snap gs) d h
