-- ===== src/Control/Checks.antt =====
-- The errors, settings and tests of `Verify` in internal/control/types.go, and the inventory it asks
-- (internal/inventory/inventory.go).
use ppflight_agent.Prelude.{
  ℕ, String, Bool, true, false, not, ◌&&◌, Option, none, some, List, [], ◌∷◌, ◌==◌, ◌=ˢ◌,
  if◌then◌else◌,
}
use ppflight_agent.Prelude.Text.{concat}
use ppflight_agent.Meter.Types.{Assignment}
use ppflight_agent.Control.Command.{ℤ, pos, int_text, Command, Encoding}

-- The errors of an authenticated command.
pub data Reason : Type 0 where
  envelope_invalid action_not_allowed expired authority_mismatch scope_invalid : Reason
  inventory_unavailable identity_mismatch parameters_invalid approval_missing : Reason

pub data VerifyError : Type 0 where
  body_hash_invalid signing_key_mismatch signature_invalid : VerifyError
  denied : Reason → VerifyError

pub record VerifyConfig : Type 0 where
  pub agent_ref : String
  pub cluster_ref : String
  pub binding_id : String
  pub device_id : String
  pub credential_epoch : ℕ
  pub assignment_revision : Option ℕ
  pub signing_key_id : String
  pub public_key : List ℕ
  pub mode : String
  pub secret : List ℕ
  pub allowed : String → Bool
  pub assignments : Option (List Assignment)
  pub now : ℕ
  pub max_clock_skew : ℕ
  pub max_lifetime : ℕ

-- What the standard library decides: the encodings of bytes as texts, HMAC, Ed25519 and the clock; and
-- `validateParameters`, which is not modelled.
pub record Primitives : Type 0 where
  pub encoding : Encoding
  pub hex_decode : String → Option (List ℕ)
  pub hex_encode : List ℕ → String
  pub base64_decode : String → Option (List ℕ)
  pub base64_encode : List ℕ → String
  pub hmac : List ℕ → List ℕ → List ℕ
  pub ed25519_verify : List ℕ → List ℕ → List ℕ → Bool
  pub clock : ℕ
  pub valid_parameters : Command → Bool

-- The first error of two checks.
infixr 5 ◌also◌
abbrev pub ◌also◌ : {E : Type 0} → Option E → Option E → Option E
none also k = k
some e also k = some e

abbrev pub refuse : {E : Type 0} → Bool → E → Option E
refuse true e = some e
refuse false e = none

abbrev pub minute : ℕ
minute = 60000000000

abbrev pub or_default : ℕ → ℕ → ℕ
or_default n default = if n == 0 then default else n

abbrev pub is_present : String → Bool
is_present s = not (s =ˢ "")

-- `PVEKey`, and the key that `Lookup` builds
abbrev pub pve_key : String → String → ℤ → String
pve_key cluster guest_type vmid = concat (cluster ∷ "/" ∷ guest_type ∷ "/" ∷ int_text vmid ∷ [])

-- `Lookup` in the index that `Replace` builds: of two assignments with one key, the later stays.
unfoldable pub lookup : String → List Assignment → Option Assignment
lookup key [] = none
lookup key (a ∷ rest) = elim (lookup key rest) [
  | some b ↦ some b
  | none ↦ if pve_key a.cluster_ref a.guest_type (pos a.vmid) =ˢ key then some a else none
]

-- A text is the encoding of these bytes.
abbrev pub decoded : Option (List ℕ) → (List ℕ → String) → String → (List ℕ → Bool) → Bool
decoded none encode text good = false
decoded (some bytes) encode text good = encode bytes =ˢ text && good bytes

abbrev pub signed_body : Option (List ℕ) → (List ℕ → Bool) → Bool
signed_body none good = false
signed_body (some payload) good = good payload
