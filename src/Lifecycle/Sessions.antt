-- ===== src/Lifecycle/Sessions.antt =====
-- What a session writes and what the next process reads back.
use mathlib.Core.Path.{subst}
use ppflight_agent.Prelude.Text.{is_uuid}
use ppflight_agent.Prelude.{
  ℕ, ◌+◌, ◌≤◌, ◌<◌, String, ◌≡◌, refl, ap, sym, ◌∙◌, true, not, ◌||◌, ◌⊎◌, inl, inr, Option, none,
  some, List, [], ◌∷◌, ◌++◌, arith, if◌then◌else◌, Bool-cases, length, ◌=ˢ◌,
}
use ppflight_agent.Prelude.Exec.{Result, ok, bind_inversion, ◌>>=◌}
use ppflight_agent.Prelude.Disk.{Disk, quiet, quiet-files, atomic_write-cases}
use ppflight_agent.Lifecycle.Types.{
  Time, Domain, website, monitoring, other, Incident, Document, running, clean, Session, File,
  absent, present, Err, io,
}
use ppflight_agent.Lifecycle.Checks.{is_valid, is_valid_utc, maximum_bytes, maximum_events}
use ppflight_agent.Lifecycle.Delivery.{persist-value}
use ppflight_agent.Lifecycle.{
  decode, load, carried, new_incident, started, persist_document, write_started, begin_after,
  begin_checked, begin, mark_pending, persist, any_awaits, mark_queued, mark_clean, cleaned,
}

module _ (encoded_size : Document → ℕ) where
  abbrev pub file_of : Document → File
  file_of v = present (encoded_size v + 1) (some v)

  persist_document_ok :
      (v : Document) (d : Disk File)
      → (persist_document encoded_size v d).0 ≡ ok tt
      → ((persist_document encoded_size v d).1.files ≡ file_of v)
        × (is_valid v ≡ true)
        × (encoded_size v ≤ maximum_bytes)
  unfolding persist_document
  persist_document_ok v d h = ground (arith, atomic_write-cases io (λ (x : File). file_of v) d)

  -- What was written is read back, if its newline still fits.
  decode-file_of :
      (v : Document)
      → is_valid v ≡ true
      → encoded_size v < maximum_bytes
      → decode (file_of v) ≡ ok (some v)
  unfolding decode
  decode-file_of v h l = ground arith

  -- The backlog of a new session, from what the file held before.
  abbrev pub Backlog : Option String → Time → Option Document → List Incident → Type 0
  Backlog id now none pending = pending ≡ []
  Backlog id now (some previous) pending =
      ((previous.state ≡ running)
        × (length previous.pending < maximum_events)
        × ((event_id : String) × (id ≡ some event_id)
            × (pending ≡ previous.pending ++ new_incident event_id previous now ∷ [])))
      ⊎ ((previous.state ≡ clean) × (pending ≡ previous.pending))

  carried_ok :
      (id : Option String) (now : Time) (o : Option Document) (d u : Disk File) (p : List Incident)
      → ((v : Document) → o ≡ some v → is_valid v ≡ true)
      → carried id now o d ≡ (ok p, u)
      → Backlog id now o p × (u ≡ d)
  unfolding carried is_valid
  carried_ok id now none d u p k h = ground arith
  carried_ok id now (some v) d u p k h = ground (arith, k v refl)

  decode_valid : (x : File) (v : Document) → decode x ≡ ok (some v) → is_valid v ≡ true
  unfolding decode
  decode_valid absent v h = cc
  decode_valid (present n none) v h = ground arith
  decode_valid (present n (some w)) v h = ground arith

  load_ok : (d u : Disk File) (o : Option Document) → load d ≡ (ok o, u) → decode d.files ≡ ok o
  unfolding load
  load_ok d u o h = ground (arith, quiet-files io d)

  abbrev pub Begun : Option String → String → Time → Disk File → Document → Disk File → Type 0
  Begun id boot_id now before doc after =
      (previous : Option Document) × (decode before.files ≡ ok previous)
      × Backlog id now previous doc.pending
      × (doc ≡ started boot_id now doc.pending)
      × (after.files ≡ file_of doc)
      × (is_valid doc ≡ true)

  write_started_ok :
      (v doc : Document) (d u : Disk File)
      → write_started encoded_size v d ≡ (ok doc, u)
      → (doc ≡ v) × (u.files ≡ file_of doc) × (is_valid doc ≡ true)
  unfolding write_started
  write_started_ok v doc d u h = ground (arith, persist_document_ok v d)

  begin_checked_reports :
      (boot_id : String) (id : Option String) (now : Time) (d u : Disk File) (doc : Document)
      → begin_checked encoded_size boot_id id now d ≡ (ok doc, u)
      → Begun id boot_id now d doc u
  unfolding begin_checked begin_after
  begin_checked_reports boot_id id now d u doc h =
      let after_load = λ (o : Option Document). begin_after encoded_size boot_id id now o in
      let (_, d₁, e₁, k₁) = bind_inversion (quiet io) (λ (_ : Unit {0}). load >>= after_load) d h in
      let (previous, d₂, e₂, k₂) = bind_inversion load after_load d₁ k₁ in
      let write = λ (p : List Incident). write_started encoded_size (started boot_id now p) in
      let (pending, d₃, e₃, k₃) = bind_inversion (carried id now previous) write d₂ k₂ in
      let written = write_started_ok (started boot_id now pending) doc d₃ u k₃ in
      let read : decode d.files ≡ ok previous =
        ap decode (sym (quiet-files io d) ∙ ap (λ (o : Result Err Unit × Disk File). o.1.files) e₁)
        ∙ load_ok d₁ d₂ previous e₂ in
      let same : doc.pending ≡ pending = ap (λ (x : Document). x.pending) written.0 in
      let valid : (v : Document) → previous ≡ some v → is_valid v ≡ true =
        λ v e. decode_valid d.files v (read ∙ ap ok e) in
      let backlog : Backlog id now previous pending =
        (carried_ok id now previous d₂ d₃ pending valid e₃).0 in
      (
        previous,
        read,
        subst (Backlog id now previous) (sym same) backlog,
        written.0 ∙ ap (started boot_id now) (sym same),
        written.1,
        written.2,
      )

  -- A session that begins takes over the backlog of the file that it found: the incidents there, and
  -- one more, for the process before it, exactly if that one did not end cleanly, which needs a free
  -- place and an event ID; the file then holds the new session, which is valid and running.
  pub begin_reports :
      (filename boot_id : String) (id : Option String) (now : Time) (d u : Disk File)
      (doc : Document)
      → begin encoded_size filename boot_id id now d ≡ (ok doc, u)
      → Begun id boot_id now d doc u
  unfolding begin
  begin_reports filename boot_id id now d u doc h =
      elim (Bool-cases (filename =ˢ "" || not (is_uuid boot_id) || not (is_valid_utc now))) [
        | inl e ↦ absurd (cc (rw e at h))
        | inr e ↦ begin_checked_reports boot_id id now d u doc (rw e at h)
      ]

  persist_ok :
      (s : Session)
      → (persist encoded_size s).0 ≡ ok tt
      → ((persist encoded_size s).1.disk.files ≡ file_of (persist encoded_size s).1.value)
        × (is_valid s.value ≡ true)
  unfolding persist
  persist_ok s h = ground (arith, persist_document_ok s.value s.disk)

  -- What `MarkQueued` or `MarkClean` leaves in memory after a change that it reports as saved is
  -- what the next process reads back, if the document has room for its final newline.
  abbrev pub IsSaved : Session → Type 0
  IsSaved s =
      (s.disk.files ≡ file_of s.value)
      × (encoded_size s.value < maximum_bytes → decode s.disk.files ≡ ok (some s.value))

  persist-IsSaved :
      (s : Session) → (persist encoded_size s).0 ≡ ok tt → IsSaved (persist encoded_size s).1
  unfolding persist
  persist-IsSaved s h =
      let (wrote, valid) = persist_ok s h in
      (wrote, λ l. ap decode wrote ∙ decode-file_of s.value valid l)

  -- After a clean exit that reports success, the file holds the session in memory, and reading it
  -- back gives this session, if its encoding is below the limit on the size.
  pub mark_clean-IsSaved :
      (now : Time) (s : Session)
      → (mark_clean encoded_size now s).0 ≡ ok tt
      → IsSaved (mark_clean encoded_size now s).1
        × ((mark_clean encoded_size now s).1.value.state ≡ clean)
  unfolding mark_clean
  mark_clean-IsSaved now s h = elim (Bool-cases (is_valid_utc now)) [
    | inl e ↦
        rw e (
          persist-IsSaved (cleaned encoded_size now s) (rw e at h),
          rw (persist-value encoded_size),
        )
    | inr e ↦ absurd (cc (rw e at h))
  ]

  mark-IsSaved :
      (d : Domain) (s : Session)
      → mark_queued encoded_size d s ≡ (
          if any_awaits d s.value.pending
          then persist encoded_size (mark_pending encoded_size d s)
          else (ok tt, s))
      → (mark_queued encoded_size d s).0 ≡ ok tt
      → ((mark_queued encoded_size d s).1 ≡ s) ⊎ IsSaved (mark_queued encoded_size d s).1
  mark-IsSaved d s e h = elim (Bool-cases (any_awaits d s.value.pending)) [
    | inr n ↦
        let idle : mark_queued encoded_size d s ≡ (ok tt, s) = e ∙ (rw n) in
        inl (ap (λ (o : Result Err Unit × Session). o.1) idle)
    | inl y ↦
        let run : mark_queued encoded_size d s
            ≡ persist encoded_size (mark_pending encoded_size d s) =
          e ∙ (rw y) in
        inr (rw run (persist-IsSaved (mark_pending encoded_size d s) (rw run at h)))
  ]

  -- `MarkQueued` that reports success has changed nothing, or has saved the session in memory to the
  -- file, from which it is read back if its encoding is below the limit on the size.
  pub mark_queued-IsSaved :
      (d : Domain) (s : Session)
      → (mark_queued encoded_size d s).0 ≡ ok tt
      → ((mark_queued encoded_size d s).1 ≡ s) ⊎ IsSaved (mark_queued encoded_size d s).1
  unfolding mark_queued
  mark_queued-IsSaved website s h = mark-IsSaved website s refl h
  mark_queued-IsSaved monitoring s h = mark-IsSaved monitoring s refl h
  mark_queued-IsSaved other s h = absurd (cc)
