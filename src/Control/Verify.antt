-- ===== src/Control/Verify.antt =====
-- `Verify` of internal/control/types.go. A check that fails ends the verification with its error; the first
-- failure is reported.
pub mod Logic
pub mod Sound
pub mod Denied
pub mod Tests
use ppflight_agent.Control.Checks.{
  Primitives, Reason, VerifyConfig, VerifyError, action_not_allowed, approval_missing,
  authority_mismatch, body_hash_invalid, decoded, denied, envelope_invalid, expired,
  identity_mismatch, inventory_unavailable, is_present, lookup, minute, or_default,
  parameters_invalid, pve_key, refuse, scope_invalid, signature_invalid, signed_body,
  signing_key_mismatch, ◌also◌,
}
use ppflight_agent.Prelude.{
  ℕ, ◌+◌, ◌*◌, String, Bool, true, false, not, ◌&&◌, ◌||◌, Option, none, some, List, [], ◌∷◌, ltb,
  ◌==◌, ◌=ˢ◌, if◌then◌else◌, length,
}
use ppflight_agent.Prelude.Text.{
  codes, is_uuid, is_command_id, is_node_ref, is_body_hash, is_action_name, all_space, decimal_text,
  concat,
}
use ppflight_agent.Meter.Types.{Assignment}
use ppflight_agent.Uploader.Response.{same_text}
use ppflight_agent.Control.Command.{
  ℤ, pos, negsuc, is_zero, is_positive, int_text, Identity, Command, Encoding, has_parameters,
  canonical_command_body,
}
use ppflight_agent.Control.Actions.{
  is_known_action, is_action_scope, requires_approval, is_guest_type,
}

module _ (x : Primitives) (c : Command) (cfg : VerifyConfig) where
  -- The test-only signature.
  unfoldable pub verify_hmac : Option VerifyError
  verify_hmac =
      refuse (length cfg.secret == 0) signing_key_mismatch
      also refuse
          (not (
            decoded (x.hex_decode c.signature) x.hex_encode c.signature (λ provided.
              same_text provided (elim (canonical_command_body x.encoding c) [
                | none ↦ []
                | some payload ↦ x.hmac cfg.secret payload
              ]))))
          signature_invalid

  abbrev pub names_key : Bool
  names_key =
      is_present cfg.signing_key_id
      && c.signing_key_id =ˢ cfg.signing_key_id
      && length cfg.public_key == 32

  abbrev pub is_genuine : List ℕ → Bool
  is_genuine provided =
      length provided == 64
      && signed_body (canonical_command_body x.encoding c)
          (λ payload. x.ed25519_verify cfg.public_key payload provided)

  unfoldable pub verify_ed25519 : Option VerifyError
  verify_ed25519 =
      refuse (not names_key) signing_key_mismatch
      also refuse
          (not (decoded (x.base64_decode c.signature) x.base64_encode c.signature is_genuine))
          signature_invalid

  -- `verifySignature`
  unfoldable pub verify_signature : Option VerifyError
  verify_signature =
      if cfg.mode =ˢ "test" && length cfg.public_key == 0 then verify_hmac else verify_ed25519

  abbrev pub has_authority : Bool
  has_authority =
      is_present c.binding_id
      || is_present c.device_id
      || not (c.credential_epoch == 0)
      || not (c.assignment_revision == 0)
      || is_present c.idempotency_key

  unfoldable pub bad_envelope : Bool
  bad_envelope =
      not (elim c.schema_version [ pos n ↦ n == 1 | negsuc n ↦ false ])
      || not (is_command_id c.command_id)
      || not (is_command_id c.operation_id)
      || not (c.agent_ref =ˢ cfg.agent_ref)
      || not (is_action_name c.action)
      || not (is_command_id c.operator_ref)

  unfoldable pub bad_authority : Bool
  bad_authority =
      has_authority
      && (not (is_uuid c.binding_id)
          || not (is_command_id c.device_id)
          || c.credential_epoch == 0
          || c.assignment_revision == 0
          || not (is_command_id c.idempotency_key))

  -- An identifier that may be absent, and is malformed.
  abbrev pub bad_optional : String → Bool
  bad_optional s = is_present s && not (is_command_id s)

  abbrev pub envelope : Option Reason
  envelope =
      refuse bad_envelope envelope_invalid
      also refuse bad_authority envelope_invalid
      also refuse (not (cfg.mode =ˢ "test") && not has_authority) envelope_invalid
      also refuse (bad_optional c.signing_key_id) envelope_invalid
      also refuse (bad_optional c.approval_ref) envelope_invalid

  abbrev pub now_of : ℕ
  now_of = or_default cfg.now x.clock

  abbrev pub skew_of : ℕ
  skew_of = or_default cfg.max_clock_skew (5 * minute)

  abbrev pub lifetime_of : ℕ
  lifetime_of = or_default cfg.max_lifetime (15 * minute)

  unfoldable pub bad_timing : Bool
  bad_timing =
      c.issued_at == 0
      || c.expires_at == 0
      || not (ltb c.issued_at c.expires_at)
      || ltb (now_of + skew_of) c.issued_at
      || ltb (c.issued_at + lifetime_of) now_of
      || not (ltb now_of c.expires_at)
      || ltb (c.issued_at + lifetime_of) c.expires_at

  abbrev pub is_configured : Bool
  is_configured =
      is_present cfg.binding_id
      || is_present cfg.device_id
      || not (cfg.credential_epoch == 0)
      || elim cfg.assignment_revision [ none ↦ false | some r ↦ true ]

  abbrev pub matches_revision : Option ℕ → Bool
  matches_revision none = false
  matches_revision (some revision) =
      not (revision == 0)
      && c.binding_id =ˢ cfg.binding_id
      && c.device_id =ˢ cfg.device_id
      && c.credential_epoch == cfg.credential_epoch
      && c.assignment_revision == revision

  -- `verifyAuthority`
  unfoldable pub verify_authority : Option Reason
  verify_authority =
      if cfg.mode =ˢ "test" && not is_configured
      then none
      else refuse
          (not (is_uuid cfg.binding_id)
            || not (is_command_id cfg.device_id)
            || cfg.credential_epoch == 0
            || not (matches_revision cfg.assignment_revision))
          authority_mismatch

  -- The parts of an identity that belong to a VM are absent.
  abbrev pub no_vm : Bool
  no_vm =
      is_zero c.identity.vmid
      && c.identity.generation == 0
      && not (is_present c.identity.service_ref)
      && not (is_present c.identity.instance_uuid)
      && not (is_present c.identity.guest_type)

  abbrev pub bad_vm : Bool
  bad_vm =
      not (is_positive c.identity.vmid)
      || c.identity.generation == 0
      || not (is_guest_type c.identity.guest_type)
      || not (is_node_ref c.identity.node_ref)
      || not (is_command_id c.identity.service_ref)
      || not (is_command_id c.identity.instance_uuid)

  abbrev pub matches_assignment : Assignment → Bool
  matches_assignment a =
      a.service_ref =ˢ c.identity.service_ref
      && a.instance_uuid =ˢ c.identity.instance_uuid
      && a.generation == c.identity.generation
      && (not (is_present a.node_ref) || a.node_ref =ˢ c.identity.node_ref)

  abbrev pub assigned : List Assignment → Option Assignment
  assigned = lookup (pve_key c.identity.cluster_ref c.identity.guest_type c.identity.vmid)

  abbrev pub is_assigned : Option Assignment → Bool
  is_assigned none = false
  is_assigned (some a) = matches_assignment a

  abbrev pub verify_assignment : Option (List Assignment) → Option Reason
  verify_assignment none = some inventory_unavailable
  verify_assignment (some inventory) =
      refuse (not (is_assigned (assigned inventory))) identity_mismatch

  abbrev pub verify_kind : Option Reason
  verify_kind =
      if c.scope =ˢ "cluster"
      then refuse
          (not (is_action_scope c.action c.scope) || is_present c.identity.node_ref || not no_vm)
          scope_invalid
      else if c.scope =ˢ "node"
      then refuse
          (not (is_action_scope c.action c.scope)
            || not (is_node_ref c.identity.node_ref)
            || not no_vm)
          scope_invalid
      else if c.scope =ˢ "vm"
      then refuse (not (is_action_scope c.action c.scope) || bad_vm) scope_invalid
        also verify_assignment cfg.assignments
      else some scope_invalid

  -- `verifyScope`
  unfoldable pub verify_scope : Option Reason
  verify_scope =
      refuse (not (c.identity.cluster_ref =ˢ cfg.cluster_ref)) scope_invalid also verify_kind

  -- The checks of `Verify` after the signature's.
  unfoldable pub policy : Option Reason
  policy =
      envelope
      also refuse (not (is_known_action c.action)) action_not_allowed
      also refuse (not (cfg.allowed c.action)) action_not_allowed
      also refuse bad_timing expired
      also verify_authority
      also verify_scope
      also refuse (not (x.valid_parameters c)) parameters_invalid
      also refuse (requires_approval c.action && all_space (codes c.approval_ref)) approval_missing

  abbrev pub denied_policy : Option Reason → Option VerifyError
  denied_policy none = none
  denied_policy (some r) = some (denied r)

  abbrev pub hash_matches : Bool
  hash_matches =
      has_parameters x.encoding c
      && is_body_hash c.body_sha256
      && x.encoding.sha256 c.parameters =ˢ c.body_sha256

  -- `Verify`
  unfoldable pub verify : Option VerifyError
  verify =
      refuse (not hash_matches) body_hash_invalid also verify_signature also denied_policy policy
