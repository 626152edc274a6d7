-- ===== src/Control.antt =====
-- The control service of internal/control, above its journal.
pub mod Command
pub mod Actions
pub mod Checks
pub mod Verify
pub mod Dispatcher
pub mod World
pub mod Codes
pub mod Authority
pub mod Admission
