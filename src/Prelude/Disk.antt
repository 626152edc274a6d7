-- ===== src/Prelude/Disk.antt =====
-- A directory of files behind calls that may fail. Each system call takes its outcome from a
-- schedule (`false` is a failure, and a call beyond the end of the schedule succeeds); a failed
-- call changes no file. `atomic_write` is the write-rename-sync sequence that
-- internal/store/queue.go, internal/control/journal.go, internal/meter/meter.go,
-- internal/runstate/state.go and internal/fsutil share.
use mathlib.Core.Path.{◌≡◌, refl}
use mathlib.Core.Logic.{◌⊎◌}
use mathlib.Core.Bool.{Bool, true, false}
use mathlib.Core.List.{List, [], ◌∷◌}
use native.Mathlib.Omega.{arith}
use ppflight_agent.Prelude.Exec.{Result, ok, err, Exec, ◌>>◌}

pub record Disk (F : Type 0) : Type 0 where
  pub files : F
  pub outcomes : List Bool

abbrev pub reliable : {F : Type 0} → F → Disk F
reliable f = record { files = f; outcomes = [] }

module _ {F E : Type 0} where
  take_outcome : E → (F → F) → F → List Bool → Result E Unit × Disk F
  take_outcome e f x [] = (ok tt, record { files = f x; outcomes = [] })
  take_outcome e f x (true ∷ r) = (ok tt, record { files = f x; outcomes = r })
  take_outcome e f x (false ∷ r) = (err e, record { files = x; outcomes = r })

  -- One system call: its effect on the files, or the error.
  unfoldable pub syscall : E → (F → F) → Exec (Disk F) E Unit
  unfolding take_outcome
  syscall e f d = take_outcome e f d.files d.outcomes

  -- A call that touches no named file.
  unfoldable pub quiet : E → Exec (Disk F) E Unit
  unfolding syscall
  quiet e = syscall e (λ x. x)

  -- Create a temporary file, chmod, write, sync and close it, rename it over the target, and sync
  -- the directory. The deferred removal of the temporary file touches no named file.
  unfoldable pub atomic_write : E → (F → F) → Exec (Disk F) E Unit
  unfolding quiet
  atomic_write e f = do quiet e; quiet e; quiet e; quiet e; quiet e; syscall e f; quiet e

  -- What a call may have done, read off its result and the files after it.
  abbrev pub Wrote : E → (F → F) → F → Result E Unit × Disk F → Type 0
  Wrote e f x o =
      ((o.0 ≡ ok tt) × (o.1.files ≡ f x))
      ⊎ ((o.0 ≡ err e) × (o.1.files ≡ x))
      ⊎ ((o.0 ≡ err e) × (o.1.files ≡ f x))

  pub syscall-cases :
      (e : E) (f : F → F) (d : Disk F)
      → ((syscall e f d).0 ≡ ok tt) × ((syscall e f d).1.files ≡ f d.files)
        ⊎ ((syscall e f d).0 ≡ err e) × ((syscall e f d).1.files ≡ d.files)
  unfolding syscall
  syscall-cases e f d = ground arith

  pub atomic_write-cases : (e : E) (f : F → F) (d : Disk F) → Wrote e f d.files (atomic_write e f d)
  unfolding atomic_write
  atomic_write-cases e f d = ground arith

  pub atomic_write-reliable :
      (e : E) (f : F → F) (x : F) → atomic_write e f (reliable x) ≡ (ok tt, reliable (f x))
  unfolding atomic_write
  atomic_write-reliable e f x = refl

  pub quiet-files : (e : E) (d : Disk F) → (quiet e d).1.files ≡ d.files
  unfolding quiet
  quiet-files e d = ground arith

  pub quiet-cases :
      (e : E) (d : Disk F)
      → (((quiet e d).0 ≡ ok tt) ⊎ ((quiet e d).0 ≡ err e)) × ((quiet e d).1.files ≡ d.files)
  unfolding quiet
  quiet-cases e d = ground arith
