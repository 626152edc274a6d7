-- ===== src/Control/Codes.antt =====
-- The codes of rejections in internal/control/service.go.
use ppflight_agent.Prelude.{String, Bool, true, false}
use ppflight_agent.Control.Checks.{
  Reason, envelope_invalid, action_not_allowed, expired, authority_mismatch, scope_invalid,
  inventory_unavailable, identity_mismatch, parameters_invalid, approval_missing, VerifyError,
  body_hash_invalid, signing_key_mismatch, signature_invalid, denied,
}
use ppflight_agent.Journal.Types.{
  Err, command_conflict, operation_conflict, idempotency_conflict, resource_busy, refused,
}

-- `verificationRejectionCode`
abbrev pub reason_code : Reason → String
reason_code authority_mismatch = "COMMAND_AUTHORITY_MISMATCH"
reason_code action_not_allowed = "COMMAND_ACTION_NOT_ALLOWED"
reason_code expired = "COMMAND_EXPIRED"
reason_code inventory_unavailable = "COMMAND_INVENTORY_UNAVAILABLE"
reason_code identity_mismatch = "COMMAND_IDENTITY_MISMATCH"
reason_code scope_invalid = "COMMAND_SCOPE_INVALID"
reason_code parameters_invalid = "INVALID_PARAMETERS"
reason_code approval_missing = "APPROVAL_REQUIRED"
reason_code envelope_invalid = "COMMAND_ENVELOPE_INVALID"

abbrev pub verification_code : VerifyError → String
verification_code body_hash_invalid = "COMMAND_BODY_HASH_INVALID"
verification_code signing_key_mismatch = "COMMAND_SIGNING_KEY_MISMATCH"
verification_code signature_invalid = "COMMAND_SIGNATURE_INVALID"
verification_code (denied r) = reason_code r

-- `claimRejectionCode`; a refusal of `vm.migrate-legacy-journal` has its own code.
abbrev pub claim_code : Err → String
claim_code command_conflict = "COMMAND_ID_CONFLICT"
claim_code operation_conflict = "OPERATION_ID_CONFLICT"
claim_code idempotency_conflict = "IDEMPOTENCY_KEY_CONFLICT"
claim_code resource_busy = "RESOURCE_BUSY"
claim_code (refused code) = code
claim_code _ = "JOURNAL_UNAVAILABLE"

abbrev pub is_denied : VerifyError → Bool
is_denied (denied r) = true
is_denied _ = false
