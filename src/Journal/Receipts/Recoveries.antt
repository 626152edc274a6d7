-- ===== src/Journal/Receipts/Recoveries.antt =====
-- The recovery after a restart keeps every receipt.
use ppflight_agent.Prelude.{
  String, ◌≡◌, refl, Bool, true, false, not, Option, none, some, List, [], ◌∷◌, if◌then◌else◌,
}
use ppflight_agent.Prelude.Exec.{ok, ◌>>=◌, return, fail}
use ppflight_agent.Prelude.Disk.{quiet, atomic_write}
use ppflight_agent.Journal.Types.{
  Receipt, AuditContext, Event, JournalRecord, Entries, Outside, io, invalid_audit, id_unavailable,
}
use ppflight_agent.Journal.Entries.{put_entry}
use ppflight_agent.Journal.Audit.{event_of, apply_compatibility}
use ppflight_agent.Journal.{decode}
use ppflight_agent.Journal.Scans.{Tools, list_files}
use ppflight_agent.Journal.Recovery.{
  Restart, is_interrupted, final_receipt, closed, write_file, publish_file, close_file, read_file,
  recover_files, recover_incomplete,
}
use ppflight_agent.Journal.Receipts.{
  HasReceipt, Keeps, return-Keeps, fail-Keeps, pure-Keeps, bind-Keeps, quiet-Keeps, state-Triple,
  put-Keeps,
}

module _ (out : Outside) (tools : Tools) where
  pub list_files-Keeps : Keeps (list_files out tools)
  list_files-Keeps =
      bind-Keeps (quiet io) (λ _ d. (ok (tools.list_directory d.files), d)) quiet-Keeps
        (λ _. pure-Keeps (λ d. ok (tools.list_directory d.files)))

module _ (out : Outside) (tools : Tools) (at : Restart) where
  write_file-Keeps :
      (name : String) (r : JournalRecord) (x : Receipt)
      → r.receipt ≡ some x
      → Keeps (write_file out tools at name r)
  unfolding write_file
  write_file-Keeps name r x e n =
      state-Triple (HasReceipt n) (HasReceipt n) (atomic_write io (put_entry name r))
        (λ d h. put-Keeps name n r d (λ _. (x, e)) h)

  publish_file-Keeps :
      (name : String) (r : JournalRecord) (x : Receipt)
      → r.receipt ≡ some x
      → Keeps (publish_file out tools at name r x)
  unfolding publish_file
  publish_file-Keeps name r x e = go r.audit_context
    where
      made :
          (o : Option Event)
          → Keeps {A = Unit} (elim o [
            | none ↦ fail invalid_audit
            | some event ↦ write_file out tools at name (record r { audit_pending = some event })
          ])
      made none = fail-Keeps invalid_audit
      made (some event) = write_file-Keeps name _ x e

      go :
          (o : Option AuditContext)
          → Keeps {A = Unit} (elim o [
            | none ↦ write_file out tools at name r
            | some context ↦ elim (event_of out context x) [
              | none ↦ fail invalid_audit
              | some event ↦ write_file out tools at name (record r { audit_pending = some event })
            ]
          ])
      go none = write_file-Keeps name r x e
      go (some context) = made (event_of out context x)

  close_file-Keeps :
      (name : String) (r : JournalRecord) (id : String) → Keeps (close_file out tools at name r id)
  unfolding close_file
  close_file-Keeps name r id =
      let x = apply_compatibility (final_receipt at r id) in
      bind-Keeps (publish_file out tools at name (closed at r x) x) (λ _. return x)
        (publish_file-Keeps name (closed at r x) x refl) (λ _. return-Keeps x)

  read_file-Keeps : (content : Option JournalRecord) → Keeps (read_file out tools at content)
  read_file-Keeps content =
      bind-Keeps (quiet io) (λ _ d. (decode out (some content), d)) quiet-Keeps
        (λ _. pure-Keeps (λ d. decode out (some content)))

  recover_files-Keeps :
      (files : Entries) (ids : List String) → Keeps (recover_files out tools at files ids)
  unfolding recover_files
  recover_files-Keeps [] ids = return-Keeps []
  recover_files-Keeps ((name, content) ∷ rest) ids =
      bind-Keeps (read_file out tools at content) _ (read_file-Keeps content)
        (λ r. go (recover_files-Keeps rest) r (is_interrupted at r) ids)
    where
      go :
          ((ids : List String) → Keeps (recover_files out tools at rest ids))
          → (r : JournalRecord) (b : Bool) (ids : List String)
          → Keeps (
              if not b then recover_files out tools at rest ids else elim ids [
                | [] ↦ fail id_unavailable
                | id ∷ others ↦ do
                  x ← close_file out tools at name r id
                  xs ← recover_files out tools at rest others
                  return (x ∷ xs)
              ])
      go k r false ids = k ids
      go k r true [] = fail-Keeps id_unavailable
      go k r true (id ∷ others) =
          bind-Keeps (close_file out tools at name r id) _ (close_file-Keeps name r id) (λ x.
            bind-Keeps (recover_files out tools at rest others) (λ xs. return (x ∷ xs)) (k others)
              (λ xs. return-Keeps (x ∷ xs)))

  pub recover_incomplete-Keeps : (ids : List String) → Keeps (recover_incomplete out tools at ids)
  unfolding recover_incomplete
  recover_incomplete-Keeps ids =
      bind-Keeps (list_files out tools) (λ files. recover_files out tools at files ids)
        (list_files-Keeps out tools) (λ files. recover_files-Keeps files ids)
