-- ===== src/Runstate.antt =====
-- internal/runstate/state.go: the wire sequences that survive restarts. A `*State` is the record
-- `State`, with its file behind the failing calls of `Prelude.Disk`; the three counters are one
-- function of the stream. `NewID` is an argument that may be missing.
pub mod Events
pub mod Writes
pub mod Opening
pub mod Monotone
mod Tests
use Prim.Native.Char.{code}
use ppflight_agent.Prelude.{
  ℕ, zero, suc, ◌+◌, ◌-◌, ◌%◌, ◌^◌, String, Bool, true, false, not, ◌&&◌, ◌||◌, Option, none, some,
  List, [], ◌∷◌, ◌==◌, ◌=ˢ◌, if◌then◌else◌,
}
use ppflight_agent.Prelude.Exec.{Result, ok, err, Exec, ◌>>=◌, ◌>>◌, return, fail, branch}
use ppflight_agent.Prelude.Disk.{Disk, quiet, atomic_write}
use ppflight_agent.Prelude.Text.{codes}

pub record Document : Type 0 where
  pub version : ℕ
  pub boot_id : String
  pub website_sequence : ℕ  -- uint64, as the two below
  pub monitoring_sequence : ℕ
  pub monitoring_audit_sequence : ℕ

-- The file, and what it decodes to, if it does.
pub data File : Type 0 where
  absent : File
  present : Option Document → File

pub record State : Type 0 where
  pub value : Document
  pub disk : Disk File

pub data Stream : Type 0 where
  website monitoring monitoring_audit : Stream

pub data Err : Type 0 where
  invalid corrupt io no_id exhausted : Err

abbrev pub version : ℕ
version = 1

abbrev pub sequence : Stream → Document → ℕ
sequence website v = v.website_sequence
sequence monitoring v = v.monitoring_sequence
sequence monitoring_audit v = v.monitoring_audit_sequence

abbrev pub with_sequence : Stream → ℕ → Document → Document
with_sequence website n v = record v { website_sequence = n }
with_sequence monitoring n v = record v { monitoring_sequence = n }
with_sequence monitoring_audit n v = record v { monitoring_audit_sequence = n }

-- How deep a rooted path leads, by `filepath.Clean`; a component is read up to its slash.
abbrev component : List ℕ → ℕ → ℕ
component [] depth = depth
component (a ∷ []) depth = if a == b'.' then depth else depth + 1
component (a ∷ b ∷ []) depth = if a == b'.' && b == b'.' then depth - 1 else depth + 1
component _ depth = depth + 1

unfoldable pub clean_depth : List ℕ → ℕ → List ℕ → ℕ
clean_depth name depth [] = component name depth
clean_depth name depth (c ∷ cs) =
    clean_depth (if c == b'/' then [] else c ∷ name)
      (if c == b'/' then component name depth else depth) cs

-- `filepath.Clean(filename) == "/"`
unfoldable pub is_root : List ℕ → Bool
unfolding clean_depth
is_root [] = false
is_root (c ∷ cs) = c == b'/' && clean_depth [] 0 cs == 0

abbrev pub file_of : Document → File
file_of v = present (some v)

-- `persist`: the directory is made, and the document written.
unfoldable pub persist : Document → Exec (Disk File) Err Unit
persist v = do quiet io; atomic_write io (λ _. file_of v)

abbrev pub initial : Document
initial = record {
  version = version;
  boot_id = "";
  website_sequence = 0;
  monitoring_sequence = 0;
  monitoring_audit_sequence = 0;
}

unfoldable pub decode : File → Result Err Document
decode absent = ok initial
decode (present none) = err corrupt
decode (present (some v)) = if v.version == version then ok v else err corrupt

-- The rest of `Open`, from the document that was read.
unfoldable pub resume : Option String → Document → Exec (Disk File) Err Document
resume none v d = (err no_id, d)
resume (some id) v d = (persist (record v { boot_id = id }) >> return (record v { boot_id = id })) d

unfoldable pub open_checked : Option String → Exec (Disk File) Err Document
open_checked id = do quiet io; v ← λ d. (decode d.files, d); resume id v

-- `Open`
unfoldable pub open_state : String → Option String → Exec (Disk File) Err Document
open_state filename id =
    branch (λ d. filename =ˢ "" || is_root (codes filename)) (fail invalid) (open_checked id)

abbrev pub max_sequence : ℕ
max_sequence = 2 ^ 64 - 1

abbrev advanced : Stream → Document → Document
advanced k v = with_sequence k (sequence k v + 1) v

-- `NextWebsite`, `NextMonitoring` and `NextMonitoringAudit`: a number that could not be saved is
-- taken back.
unfoldable pub next : Stream → Exec State Err ℕ
next k s =
    if sequence k s.value == max_sequence
    then (err exhausted, s)
    else let (r, d) = persist (advanced k s.value) s.disk in
      elim r [
        | ok u ↦ (ok (sequence k s.value + 1), record { value = advanced k s.value; disk = d })
        | err e ↦ (
          err e,
          record {
            value = with_sequence k (sequence k (advanced k s.value) - 1) (advanced k s.value);
            disk = d;
          },
        )
      ]
