-- ===== src/Journal/Receipts/Reads.antt =====
-- What a claim has read, in a journal where a file has a receipt.
use ppflight_agent.Prelude.{
  arith, String, ◌≡◌, ◌≢◌, refl, ap, sym, ◌∙◌, true, ◌⊎◌, inl, inr, Option, none, some, ◌=ˢ◌,
  str_eq→eq,
}
use ppflight_agent.Prelude.Exec.{Result, ok, err, Exec, after, Triple}
use ppflight_agent.Prelude.Disk.{quiet, quiet-cases}
use ppflight_agent.Control.Command.{Command}
use ppflight_agent.Journal.Types.{Receipt, JournalRecord, Journal, Outside, Err, io, not_exist}
use ppflight_agent.Journal.Entries.{find_entry}
use ppflight_agent.Journal.Claim.{Claimed, execute}
use ppflight_agent.Journal.{decode, read, write}
use ppflight_agent.Journal.Outbox.{decode_inversion}
use ppflight_agent.Journal.Receipts.{HasReceipt, state-Triple, put-Keeps}

module _ (out : Outside) (c : Command) where
  -- The record is one that may stand in the command's file when the file `n` has a receipt.
  abbrev pub Right : String → JournalRecord → Type 0
  Right n r = (out.path c.command_id =ˢ n) ≡ true → (x : Receipt) × (r.receipt ≡ some x)

  -- The command's file is not the file `n`.
  abbrev pub IsOther : String → Type 0
  IsOther n = (out.path c.command_id =ˢ n) ≢ true

  -- What a claim may return when the file `n` has a receipt.
  abbrev pub IsDuplicate : String → Claimed → Journal → Type 0
  IsDuplicate n a d = ((out.path c.command_id =ˢ n) ≡ true → a ≢ execute) × HasReceipt n d

  pub write-Right :
      (n : String) (r : JournalRecord)
      → Right n r
      → Triple (HasReceipt n) (write out c.command_id r) (λ _. HasReceipt n) (λ _. HasReceipt n)
  unfolding write
  write-Right n r o =
      state-Triple (HasReceipt n) (HasReceipt n) (write out c.command_id r)
        (λ d h. put-Keeps (out.path c.command_id) n r d o h)

  -- A read fails for the disk, or decodes the file.
  pub read-cases :
      (d : Journal)
      → (((read out c.command_id d).0 ≡ err io)
          ⊎ ((read out c.command_id d).0 ≡ decode out (find_entry (out.path c.command_id) d.files)))
        × ((read out c.command_id d).1.files ≡ d.files)
  unfolding read
  read-cases d =
      let (r, same) = quiet-cases io d in
      (decoded (quiet io d).0 (quiet io d).1 same r, go (quiet io d).0 (quiet io d).1 same)
    where
      next : Unit {0} → Exec Journal Err JournalRecord
      next _ x = (decode out (find_entry (out.path c.command_id) x.files), x)

      go :
          (r : Result Err (Unit {0})) (t : Journal)
          → t.files ≡ d.files
          → (after r next t).1.files ≡ d.files
      go (ok a) t e = e
      go (err x) t e = e

      decoded :
          (r : Result Err (Unit {0})) (t : Journal)
          → t.files ≡ d.files
          → (r ≡ ok tt) ⊎ (r ≡ err io)
          → ((after r next t).0 ≡ err io)
            ⊎ ((after r next t).0 ≡ decode out (find_entry (out.path c.command_id) d.files))
      decoded (ok a) t e h = inr (ap (λ f. decode out (find_entry (out.path c.command_id) f)) e)
      decoded (err x) t e (inl h) = absurd (cc)
      decoded (err x) t e (inr h) = inl (cc)

  pub decode-none : (o : Option (Option JournalRecord)) → decode out o ≡ err not_exist → o ≡ none
  unfolding decode
  decode-none none h = refl
  decode-none (some none) h = absurd (cc)
  decode-none (some (some r)) h = absurd (ground arith)

  pub read-Right :
      (n : String) (d : Journal) (r : JournalRecord)
      → HasReceipt n d
      → (read out c.command_id d).0 ≡ ok r
      → Right n r
  read-Right n d r h e m = elim (read-cases d).0 [
    | inl k ↦ absurd (cc)
    | inr k ↦
        let (f, g) =
          decode_inversion out (find_entry (out.path c.command_id) d.files) r (sym k ∙ e) in
        let same : out.path c.command_id ≡ n = str_eq→eq _ n m in
        let (r0, x0, found, receipt) = h in
        let stored : r0 ≡ r = cc (found, f, ap (λ z. find_entry z d.files) same) in
        (x0, ap (λ z. z.receipt) (sym stored) ∙ receipt)
  ]

  pub read-IsOther :
      (n : String) (d : Journal)
      → HasReceipt n d
      → (read out c.command_id d).0 ≡ err not_exist
      → IsOther n
  read-IsOther n d h e m = elim (read-cases d).0 [
    | inl k ↦ absurd (cc)
    | inr k ↦
        let f = decode-none (find_entry (out.path c.command_id) d.files) (sym k ∙ e) in
        let same : out.path c.command_id ≡ n = str_eq→eq _ n m in
        absurd (cc (h.2, f, ap (λ z. find_entry z d.files) same))
  ]
