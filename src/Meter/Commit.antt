-- ===== src/Meter/Commit.antt =====
-- What the transaction file of internal/meter/meter.go guarantees.
use ppflight_agent.Prelude.{
  ℕ, String, ◌≡◌, refl, ap, sym, ◌∙◌, Bool, true, false, Option, none, some, List, [], ◌∷◌, inl,
  inr, ◌==◌, if◌then◌else◌, length, All,
}
use ppflight_agent.Prelude.Exec.{
  Result, ok, err, Exec, Post, Triple, Triple-return, Triple-fail, Triple-bind, Triple-branch,
  modify, return, ◌>>◌,
}
use ppflight_agent.Prelude.Disk.{
  Disk, quiet, syscall, atomic_write, atomic_write-cases, syscall-cases, quiet-files,
}
use ppflight_agent.Meter.Types.{
  Assignment, Guest, Snapshot, UsageBatch, MeterState, Files, Config, QueueApi, Library, Meter,
  Draft, Err, io, queue_failed,
}
use mathlib.Core.Path.{subst}
use ppflight_agent.Meter.Billing.{IsBillable, AllBillable, observe_guests-billable}
use ppflight_agent.Meter.Checks.{is_valid_batch}
use ppflight_agent.Meter.{
  on_disk, write_state, write_txn, remove_txn, sync_directory, set_state, enqueue_batch, finish,
  recover, commit, name_batch, publish, record_snapshot, observe, with_state_file, with_txn_file,
  without_txn_file, draft_from, transaction_of,
}

module _ {W : Type 0} (q : QueueApi W) (l : Library) where
  -- The queue took the batch: it took it in some state, which is the one it has now.
  abbrev pub Queued : UsageBatch → Meter W → Type 0
  Queued b s = (w : W) × (q.enqueue b.batch_id (l.marshal b) w ≡ (ok tt, s.queue))

  abbrev pub Saved : MeterState → Meter W → Type 0
  Saved st s = s.disk.files.state_file ≡ some (some st)

  -- The batch is queued, its state is in memory and in the file, and no transaction is left.
  abbrev pub Settled : UsageBatch → MeterState → Meter W → Type 0
  Settled b st s = Queued b s × (s.state ≡ st) × Saved st s × (s.disk.files.txn_file ≡ none)

  enqueue_batch-Queued :
      (b : UsageBatch) → Triple (λ _. Unit) (enqueue_batch q l b) (λ _. Queued b) (λ _ _. Unit)
  unfolding enqueue_batch
  enqueue_batch-Queued b = record {
    run = λ s h. go s (q.enqueue b.batch_id (l.marshal b) s.queue).0 refl;
  }
    where
      go :
          (s : Meter W) (r : Result q.Error Unit)
          → (q.enqueue b.batch_id (l.marshal b) s.queue).0 ≡ r
          → Post {E = Err}
              (λ _. Queued b)
              (λ _ _. Unit)
              (elim r [ ok u ↦ ok tt | err e ↦ err queue_failed ])
              (record s { queue = (q.enqueue b.batch_id (l.marshal b) s.queue).1 })
      go s (ok u) e = (s.queue, λ i. (e i, (q.enqueue b.batch_id (l.marshal b) s.queue).1))
      go s (err x) e = tt

  -- A call on the disk, by what it does to the files when it succeeds.
  disk_call :
      (m : Exec (Disk Files) Err Unit) (P : Meter W → Type 0) (M : Meter W → Type 0)
      → ((s : Meter W) → P s → (m s.disk).0 ≡ ok tt → M (record s { disk = (m s.disk).1 }))
      → Triple P (on_disk m) (λ _. M) (λ _ _. Unit)
  unfolding on_disk
  disk_call m P M k = record { run = λ s h. go s h (m s.disk).0 refl }
    where
      go :
          (s : Meter W)
          → P s
          → (r : Result Err Unit) → (m s.disk).0 ≡ r
          → Post {E = Err} (λ _. M) (λ _ _. Unit) r (record s { disk = (m s.disk).1 })
      go s h (ok u) e = k s h e
      go s h (err x) e = tt

  written :
      (f : Files → Files) (d : Disk Files)
      → (atomic_write io f d).0 ≡ ok tt
      → (atomic_write io f d).1.files ≡ f d.files
  written f d e = elim (atomic_write-cases io f d) [
    | inl h ↦ h.1
    | inr (inl h) ↦ absurd (cc)
    | inr (inr h) ↦ absurd (cc)
  ]

  removed :
      (f : Files → Files) (d : Disk Files)
      → (syscall io f d).0 ≡ ok tt
      → (syscall io f d).1.files ≡ f d.files
  removed f d e = elim (syscall-cases io f d) [ inl h ↦ h.1 | inr h ↦ absurd (cc) ]

  finish-Settled :
      (b : UsageBatch) (st : MeterState)
      → Triple (λ _. Unit) (finish q l b st) (λ _. Settled b st) (λ _ _. Unit)
  unfolding finish write_state remove_txn sync_directory
  finish-Settled b st =
      Triple-bind (λ _. Queued b) _ _ (enqueue_batch-Queued b)
        (λ _.
          Triple-bind (λ _ s. Queued b s × Saved st s) _ _
            (disk_call (atomic_write io (with_state_file st)) (Queued b) _
              (λ s h e. (h, ap (λ f. f.state_file) (written (with_state_file st) s.disk e))))
            (λ _.
              Triple-bind (λ _ s. Queued b s × (s.state ≡ st) × Saved st s) (modify (set_state st))
                _ (record { run = λ s h. (h.0, refl, h.1) })
                (λ _.
                  Triple-bind (λ _. Settled b st) _ _
                    (disk_call (syscall io without_txn_file) _ _ (λ s h e. (
                      h.0,
                      h.1,
                      ap (λ f. f.state_file) (removed without_txn_file s.disk e) ∙ h.2,
                      ap (λ f. f.txn_file) (removed without_txn_file s.disk e),
                    )))
                    (λ _. disk_call (quiet io) _ _ (λ s h e. (
                      h.0,
                      h.1,
                      ap (λ f. f.state_file) (quiet-files io s.disk) ∙ h.2,
                      ap (λ f. f.txn_file) (quiet-files io s.disk) ∙ h.3,
                    ))))))

  -- What a call of `Observe` that reports a batch has done, in configuration `c`.
  abbrev pub Published : Config → Option UsageBatch → Meter W → Type 0
  Published c none s = Unit
  Published c (some b) s =
      Queued b s
      × Saved s.state s
      × (s.disk.files.txn_file ≡ none)
      × (b.sequence ≡ s.state.next_batch_sequence)
      × (is_valid_batch l b ≡ true)
      × All (IsBillable c) b.events

  -- The triple of a step that publishes.
  abbrev Publishes : Config → Exec (Meter W) Err (Option UsageBatch) → Type 0
  Publishes c m = Triple (λ _. Unit) m (Published c) (λ _ _. Unit)

  commit_valid :
      (c : Config) (b : UsageBatch) (st : MeterState)
      → is_valid_batch l b ≡ true
      → b.sequence ≡ st.next_batch_sequence
      → All (IsBillable c) b.events
      → Publishes c (write_txn (transaction_of b st) >> (finish q l b st >> return (some b)))
  unfolding write_txn
  commit_valid c b st v n a =
      Triple-bind (λ _ _. Unit) _ _
        (disk_call (atomic_write io (with_txn_file (transaction_of b st))) _ _ (λ s h e. tt))
        (λ _.
          Triple-bind (λ _. Settled b st) _ _ (finish-Settled b st)
            (λ _. Triple-return (some b) (λ s h. (
              h.0,
              h.2 ∙ ap (λ x. some (some x)) (sym h.1),
              h.3,
              n ∙ ap (λ x. x.next_batch_sequence) (sym h.1),
              v,
              a,
            ))))

  commit-Publishes :
      (c : Config) (b : UsageBatch) (st : MeterState)
      → b.sequence ≡ st.next_batch_sequence
      → All (IsBillable c) b.events
      → Publishes c (commit q l b st)
  unfolding commit
  commit-Publishes c b st n a =
      Triple-branch (λ s. is_valid_batch l b) _ _
        (record { run = λ s h. (commit_valid c b st h.1 n a).run s tt }) (Triple-fail _ (λ s h. tt))

  name_batch-Publishes :
      (c : Config) (at : ℕ) (d : Draft) (ids : List (Option String))
      → AllBillable c d
      → Publishes c (name_batch q l c at d ids)
  unfolding name_batch
  name_batch-Publishes c at d [] a = record { run = λ s h. tt }
  name_batch-Publishes c at d (none ∷ ids) a = record { run = λ s h. tt }
  name_batch-Publishes c at d (some id ∷ ids) a = record {
    run = λ s h. (commit-Publishes c _ d.state refl a).run _ tt;
  }

  publish-Publishes :
      (c : Config) (at : ℕ) (r : Result Err Unit) (d : Draft)
      → AllBillable c d
      → Publishes c (publish q l c at r d)
  unfolding publish
  publish-Publishes c at (err e) d a = record { run = λ s h. tt }
  publish-Publishes c at (ok u) d a = record { run = λ s h. go s (length d.records == 0) }
    where
      go :
          (s : Meter W) (b : Bool)
          → let o : Result Err (Option UsageBatch) × Meter W =
              if b
              then (ok none, record s { ids = d.ids })
              else name_batch q l c at d d.ids (record s { ids = d.ids }) in
            Post (Published c) (λ _ _. Unit) o.0 o.1
      go s true = tt
      go s false = (name_batch-Publishes c at d d.ids a).run (record s { ids = d.ids }) tt

  observe-Publishes :
      (c : Config) (assigned : Guest → Option Assignment) (snap : Snapshot)
      → Publishes c (observe q l c assigned snap)
  unfolding observe record_snapshot
  observe-Publishes c assigned snap =
      Triple-bind (λ _ _. Unit) (recover q l) (λ _. record_snapshot q l c assigned snap)
        (record { run = λ s h. anything (recover q l s).0 (recover q l s).1 })
        (λ _. record {
          run = λ s h.
              (publish-Publishes c snap.observed_at _ _ (
                  observe_guests-billable c l assigned snap (l.sort snap.guests) (draft_from s)
                    tt)).run
                s tt;
        })
    where
      anything :
          (r : Result Err Unit) (s : Meter W)
          → Post {S = Meter W} {E = Err} (λ _ _. Unit {0}) (λ _ _. Unit {0}) r s
      anything (ok u) s = tt
      anything (err e) s = tt

  -- A call of observe that reports a batch has put this very batch, in its encoding, into the queue;
  -- the state file holds the state in memory, whose batch sequence is the batch's; no transaction is
  -- left on disk; and the batch is valid, with an event in the active billing state only in production
  -- mode and not before its cutover. This holds whatever disk, queue and IDs do, and whatever a crash
  -- had left.
  pub observe_committed :
      (c : Config) (assigned : Guest → Option Assignment) (snap : Snapshot) (s t : Meter W)
      (b : UsageBatch)
      → observe q l c assigned snap s ≡ (ok (some b), t)
      → Published c (some b) t
  observe_committed c assigned snap s t b e =
      subst (λ o. Post {E = Err} (Published c) (λ _ _. Unit) o.0 o.1) e
        ((observe-Publishes c assigned snap).run s tt)
