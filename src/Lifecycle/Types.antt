-- ===== src/Lifecycle/Types.antt =====
-- The data of internal/lifecycle/state.go.
use ppflight_agent.Prelude.{ℕ, String, Bool, true, Option, List}
use ppflight_agent.Prelude.Disk.{Disk}

-- An instant, 0 for the zero time, and whether its zone has offset 0.
pub record Time : Type 0 where
  pub instant : ℕ
  pub at_offset_zero : Bool

-- `UTC()`
abbrev pub utc : Time → Time
utc t = record t { at_offset_zero = true }

pub data Domain : Type 0 where
  website monitoring other : Domain

-- The texts "running" and "clean", and any other.
pub data State : Type 0 where
  running clean unknown : State

pub record Incident : Type 0 where
  pub event_id : String
  pub previous_boot_id : String
  pub previous_started_at : Time
  pub observed_at : Time
  pub website_queued : Bool
  pub monitoring_queued : Bool

pub record Document : Type 0 where
  pub version : ℕ
  pub state : State
  pub boot_id : String
  pub started_at : Time
  pub clean_exit_at : Option Time
  pub pending : List Incident

-- The file, with its size and what it decodes to, if it does.
pub data File : Type 0 where
  absent : File
  present : ℕ → Option Document → File

pub record Session : Type 0 where
  pub value : Document
  pub disk : Disk File

pub data Err : Type 0 where
  invalid full no_id io too_large : Err
