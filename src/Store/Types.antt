-- ===== src/Store/Types.antt =====
-- The data of internal/store/queue.go: kinds, policy, items, statistics, the queue and its files.
use ppflight_agent.Prelude.{ℕ, ◌%◌, ◌^◌, String, Bool, true, false, Option, List}
use ppflight_agent.Prelude.Disk.{Disk}

pub data Kind : Type 0 where
  metering telemetry audit : Kind

-- A limit of 0 means unbounded.
pub record Policy : Type 0 where
  pub max_items : ℕ
  pub max_bytes : ℕ
  pub drop_oldest : Bool

pub record Item : Type 0 where
  pub batch_id : String
  pub sequence : ℕ  -- uint64
  pub payload : List ℕ
  pub created_at : ℕ
  pub attempts : ℕ
  pub next_attempt : ℕ
  pub last_error : List ℕ

pub record Stats : Type 0 where
  pub pending_items : ℕ
  pub pending_bytes : ℕ
  pub dropped_items : ℕ  -- uint64, as the four below
  pub dropped_bytes : ℕ
  pub dead_letter_items : ℕ
  pub dead_letter_bytes : ℕ
  pub next_sequence : ℕ

-- The map of pending items is an association list keyed by `batch_id`.
pub record Queue : Type 0 where
  pub kind : Kind
  pub policy : Policy
  pub items : List Item
  pub stats : Stats

-- `%020d-<safe id>`
abbrev pub FileName : Type 0
FileName = ℕ × String

-- The content of a `.wal.json` file: what decodes, and what does not.
pub data Blob : Type 0 where
  record_of : Item → Blob
  garbage : Blob

-- One queue directory. `stats_file` is absent, corrupt or a document.
pub record Files : Type 0 where
  pub wal : List (FileName × Blob)
  pub stats_file : Option (Option Stats)
  pub dead : List (FileName × Item)

pub record Store : Type 0 where
  pub queue : Queue
  pub open queue use *
  pub disk : Disk Files

pub data Err : Type 0 where
  io not_exist capacity invalid_batch invalid_config corrupt exhausted : Err

abbrev pub u64 : ℕ → ℕ
u64 n = n % 2 ^ 64

abbrev pub is_telemetry : Kind → Bool
is_telemetry telemetry = true
is_telemetry _ = false

abbrev pub is_audit : Kind → Bool
is_audit audit = true
is_audit _ = false
