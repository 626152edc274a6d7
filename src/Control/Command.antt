-- ===== src/Control/Command.antt =====
-- internal/control/types.go: commands, what their signature covers, and the registry of actions; with the
-- resource key of internal/control/journal.go. Times are nanoseconds, 0 for the zero time; a counter
-- is a number below 2 ^ 64.
use ppflight_agent.Prelude.{
  ℕ, ◌+◌, String, Bool, false, Option, none, some, List, [], ◌∷◌, ltb, ◌==◌, if◌then◌else◌,
}
use ppflight_agent.Prelude.Text.{decimal_text, concat}

-- A Go `int`.
pub data ℤ : Type 0 where
  pos : ℕ → ℤ
  negsuc : ℕ → ℤ

abbrev pub is_positive : ℤ → Bool
is_positive (pos n) = ltb 0 n
is_positive (negsuc n) = false

abbrev pub is_zero : ℤ → Bool
is_zero (pos n) = n == 0
is_zero (negsuc n) = false

-- `%d`
abbrev pub int_text : ℤ → String
int_text (pos n) = decimal_text n
int_text (negsuc n) = concat ("-" ∷ decimal_text (n + 1) ∷ [])

pub record Identity : Type 0 where
  pub service_ref : String
  pub cluster_ref : String
  pub node_ref : String
  pub vmid : ℤ
  pub generation : ℕ
  pub instance_uuid : String
  pub guest_type : String

pub record Command : Type 0 where
  pub schema_version : ℤ
  pub command_id : String
  pub operation_id : String
  pub idempotency_key : String
  pub agent_ref : String
  pub binding_id : String
  pub device_id : String
  pub credential_epoch : ℕ
  pub assignment_revision : ℕ
  pub signing_key_id : String
  pub scope : String
  pub issued_at : ℕ
  pub expires_at : ℕ
  pub identity : Identity
  pub action : String
  pub parameters : List ℕ
  pub operator_ref : String
  pub approval_ref : String
  pub body_sha256 : String
  pub signature : String

-- The body that `CanonicalCommandBody` encodes.
pub record CanonicalBody : Type 0 where
  pub schema_version : ℤ
  pub command_id : String
  pub operation_id : String
  pub idempotency_key : String
  pub agent_ref : String
  pub binding_id : String
  pub device_id : String
  pub credential_epoch : ℕ
  pub assignment_revision : ℕ
  pub signing_key_id : String
  pub scope : String
  pub issued_at : ℕ
  pub expires_at : ℕ
  pub identity : Identity
  pub action : String
  pub parameters : List ℕ
  pub operator_ref : String
  pub approval_ref : String
  pub body_sha256 : String

abbrev pub canonical_body : Command → CanonicalBody
canonical_body c = record {
  schema_version = c.schema_version;
  command_id = c.command_id;
  operation_id = c.operation_id;
  idempotency_key = c.idempotency_key;
  agent_ref = c.agent_ref;
  binding_id = c.binding_id;
  device_id = c.device_id;
  credential_epoch = c.credential_epoch;
  assignment_revision = c.assignment_revision;
  signing_key_id = c.signing_key_id;
  scope = c.scope;
  issued_at = c.issued_at;
  expires_at = c.expires_at;
  identity = c.identity;
  action = c.action;
  parameters = c.parameters;
  operator_ref = c.operator_ref;
  approval_ref = c.approval_ref;
  body_sha256 = c.body_sha256;
}

-- `json.Valid` and `json.Marshal` of the body, and SHA-256 in hexadecimal digits.
pub record Encoding : Type 0 where
  pub is_json : List ℕ → Bool
  pub marshal : CanonicalBody → Option (List ℕ)
  pub sha256 : List ℕ → String

abbrev pub has_parameters : Encoding → Command → Bool
has_parameters enc c = go c.parameters
  where
    go : List ℕ → Bool
    go [] = false
    go (b ∷ bs) = enc.is_json (b ∷ bs)

-- `CanonicalCommandBody`
unfoldable pub canonical_command_body : Encoding → Command → Option (List ℕ)
canonical_command_body enc c = if has_parameters enc c then enc.marshal (canonical_body c) else none

-- `Digest`
unfoldable pub command_digest : Encoding → Command → String
command_digest enc c = elim (canonical_command_body enc c) [ none ↦ "" | some raw ↦ enc.sha256 raw ]
