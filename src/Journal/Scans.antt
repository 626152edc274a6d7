-- ===== src/Journal/Scans.antt =====
-- The scans of the directory in internal/control/journal.go: whether another command has used an
-- operation or an idempotency key, and whether a mutation holds a resource.
use ppflight_agent.Prelude.{
  String, Bool, true, false, not, ◌&&◌, Option, none, some, [], ◌∷◌, ◌=ˢ◌, if◌then◌else◌,
}
use ppflight_agent.Prelude.Text.{is_command_id}
use ppflight_agent.Prelude.Exec.{Result, ok, err, Exec, ◌>>=◌, ◌>>◌, return, fail}
use ppflight_agent.Prelude.Disk.{quiet}
use ppflight_agent.Control.Command.{Command, Encoding}
use ppflight_agent.Journal.Types.{
  Phase, received, running, submitted, waiting, indeterminate, JournalRecord, Entries, Journal,
  Outside, Err, io, identity_invalid,
}
use ppflight_agent.Journal.Records.{Lineage}
use ppflight_agent.Journal.{decode}

-- `os.ReadDir` of the directory, less what is no `.json` file; the strict decoding of the parameters of
-- the two actions with a lineage; and two checks of records that span several files and are not
-- modelled: `retirementCommittedLocked`, and those that `vm.migrate-legacy-journal` makes.
pub record Tools : Type 0 where
  pub encoding : Encoding
  pub list_directory : Entries → Entries
  pub lineage : Command → Option Lineage
  pub retirement_committed : Entries → JournalRecord → Result Err Bool
  pub migration_refused : Entries → Command → Option Err

pub data Used : Type 0 where
  operation_used key_used : Used

abbrev pub is_unfinished : Phase → Bool
is_unfinished received = true
is_unfinished running = true
is_unfinished submitted = true
is_unfinished waiting = true
is_unfinished indeterminate = true
is_unfinished _ = false

-- A mutation of this resource that is not finished.
abbrev pub holds_resource : String → JournalRecord → Bool
holds_resource key r = r.mutating && r.resource_key =ˢ key && is_unfinished r.state

abbrev pub uses_operation : Command → JournalRecord → Bool
uses_operation c r = r.operation_id =ˢ c.operation_id && not (r.command_id =ˢ c.command_id)

abbrev pub uses_key : Command → JournalRecord → Bool
uses_key c r =
    not (r.idempotency_key =ˢ "")
    && r.idempotency_key =ˢ c.idempotency_key
    && not (r.command_id =ˢ c.command_id)

abbrev pub is_migration : Command → Bool
is_migration c = c.action =ˢ "vm.migrate-legacy-journal"

module _ (out : Outside) (tools : Tools) where
  -- A scan of the directory, of the listed files that are left.
  unfoldable pub scan :
      {A : Type 0}
      → (JournalRecord → Exec Journal Err (Option A))
      → Entries
      → Exec Journal Err (Option A)
  scan test [] = return none
  scan test ((name, content) ∷ rest) =
      let later = scan test rest in
      do
        quiet io
        r ← λ d. (decode out (some content), d)
        found ← test r
        elim found [ some a ↦ return (some a) | none ↦ later ]

  abbrev pub list_files : Exec Journal Err Entries
  list_files = do quiet io; λ d. (ok (tools.list_directory d.files), d)

  abbrev pub used_by : Command → JournalRecord → Option Used
  used_by c r =
      if uses_operation c r
      then some operation_used
      else if uses_key c r
      then some key_used
      else none

  abbrev pub has_identity : Command → Bool
  has_identity c =
      is_command_id c.operation_id && is_command_id c.idempotency_key && is_command_id c.command_id

  unfoldable pub scan_identity : Command → Exec Journal Err (Option Used)
  scan_identity c = do files ← list_files; scan (λ r. return (used_by c r)) files

  -- `identityUsedLocked`
  unfoldable pub identity_used : Command → Exec Journal Err (Option Used)
  identity_used c = if has_identity c then scan_identity c else fail identity_invalid

  unfoldable pub holds_unretired : String → JournalRecord → Exec Journal Err (Option Unit)
  holds_unretired key r d =
      if holds_resource key r
      then elim (tools.retirement_committed d.files r) [
        | err e ↦ (err e, d)
        | ok true ↦ (ok none, d)
        | ok false ↦ (ok (some tt), d)
      ]
      else (ok none, d)

  -- `resourceBusyLocked`
  unfoldable pub resource_busy_locked : String → Exec Journal Err (Option Unit)
  resource_busy_locked key = do files ← list_files; scan (holds_unretired key) files
