-- ===== src/Runstate/Opening.antt =====
-- What an attempt to open the sequence file leaves.
use mathlib.Core.Path.{subst}
use ppflight_agent.Prelude.{
  ℕ, ◌≤◌, String, ◌≡◌, refl, ◌||◌, Option, none, some, arith, inl, inr, Bool-cases, ◌=ˢ◌,
}
use ppflight_agent.Prelude.Exec.{Result, ok, err, after}
use ppflight_agent.Prelude.Text.{codes}
use ppflight_agent.Prelude.Disk.{Disk, quiet, quiet-cases}
use ppflight_agent.Runstate.{
  Document, File, absent, present, Stream, Err, io, sequence, decode, resume, open_checked,
  open_state, is_root,
}
use ppflight_agent.Runstate.Events.{saved}
use ppflight_agent.Runstate.Writes.{persist-cases}

-- What an attempt to open leaves and returns.
abbrev Opened : Stream → ℕ → Result Err Document × Disk File → Type 0
Opened k n o = (n ≤ saved k o.1.files) × ((w : Document) → o.0 ≡ ok w → n ≤ sequence k w)

decode_ahead : (k : Stream) (x : File) (v : Document) → decode x ≡ ok v → sequence k v ≡ saved k x
unfolding decode
decode_ahead k absent v h = ground arith
decode_ahead k (present none) v h = ground arith
decode_ahead k (present (some w)) v h = ground arith

sequence-booted :
    (k : Stream) (id : String) (v : Document)
    → sequence k (record v { boot_id = id }) ≡ sequence k v
sequence-booted k id v = ground arith

resume-Opened :
    (k : Stream) (n : ℕ) (id : Option String) (v : Document) (d : Disk File)
    → n ≤ saved k d.files
    → n ≤ sequence k v
    → Opened k n (resume id v d)
unfolding resume
resume-Opened k n none v d f p = (f, λ w e. absurd (cc))
resume-Opened k n (some id) v d f p =
    let booted : Document = record v { boot_id = id } in
    let q : n ≤ sequence k booted = omega (arith, sequence-booted k id v) in
    elim (persist-cases booted d) [
      | inl (r, e) ↦ rw (r, e) (q, λ w x. subst (λ y. n ≤ sequence k y) (ok_injective x) q)
      | inr (r, inl e) ↦ rw (r, e) (f, λ w x. absurd (cc))
      | inr (r, inr e) ↦ rw (r, e) (q, λ w x. absurd (cc))
    ]
  where
    ok_injective : {a b : Document} → ◌≡◌ {A = Result Err Document} (ok a) (ok b) → a ≡ b
    ok_injective x = cc

open_checked-Opened :
    (k : Stream) (n : ℕ) (id : Option String) (d : Disk File)
    → n ≤ saved k d.files
    → Opened k n (open_checked id d)
unfolding open_checked
open_checked-Opened k n id d f =
    let same : (quiet io d).1.files ≡ d.files = (quiet-cases io d).1 in
    let g : n ≤ saved k (quiet io d).1.files = rw same f in
    elim (quiet-cases io d).0 [
      | inr e ↦ rw e (g, λ w x. absurd (cc))
      | inl e ↦ rw e (go (decode (quiet io d).1.files) refl g)
    ]
  where
    go :
        (r : Result Err Document)
        → decode (quiet io d).1.files ≡ r
        → n ≤ saved k (quiet io d).1.files
        → Opened k n (after r (resume id) (quiet io d).1)
    go (ok v) e g =
        resume-Opened k n id v (quiet io d).1 g (rw (decode_ahead k (quiet io d).1.files v e) g)
    go (err x) e g = (g, λ w y. absurd (cc))

pub open_state-Opened :
    (k : Stream) (n : ℕ) (filename : String) (id : Option String) (d : Disk File)
    → n ≤ saved k d.files
    → Opened k n (open_state filename id d)
unfolding open_state
open_state-Opened k n filename id d f =
    elim (Bool-cases (filename =ˢ "" || is_root (codes filename))) [
      | inl e ↦ rw e (f, λ w x. absurd (cc))
      | inr e ↦ rw e (open_checked-Opened k n id d f)
    ]
