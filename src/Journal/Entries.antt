-- ===== src/Journal/Entries.antt =====
-- The files of internal/control/journal.go, by name.
use ppflight_agent.Prelude.{
  String, ◌≡◌, refl, Option, none, some, [], ◌∷◌, ◌=ˢ◌, if◌then◌else◌, inl, inr, eq_refl,
  Bool-cases,
}
use ppflight_agent.Journal.Types.{JournalRecord, Entries}

unfoldable pub find_entry : String → Entries → Option (Option JournalRecord)
find_entry name [] = none
find_entry name ((n, r) ∷ rest) =
    let later = find_entry name rest in if n =ˢ name then some r else later

unfoldable pub put_entry : String → JournalRecord → Entries → Entries
put_entry name r [] = (name, some r) ∷ []
put_entry name r ((n, old) ∷ rest) =
    let later = put_entry name r rest in
    if n =ˢ name then (name, some r) ∷ rest else (n, old) ∷ later

pub find-put :
    (name : String) (r : JournalRecord) (es : Entries)
    → find_entry name (put_entry name r es) ≡ some (some r)
unfolding find_entry put_entry
find-put name r [] = rw (eq_refl name) refl
find-put name r ((n, old) ∷ rest) = elim (Bool-cases (n =ˢ name)) [
  | inl e ↦ rw (e, eq_refl name) refl
  | inr e ↦ rw (e, e) (find-put name r rest)
]
