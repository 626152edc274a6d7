-- ===== src/Control/Verify/Tests.antt =====
-- A command that starts an assigned guest.
use ppflight_agent.Prelude.{ℕ, zero, suc, String, List, ◌≡◌, refl, true, none, some, [], ◌∷◌}
use ppflight_agent.Prelude.Text.{
  is_uuid, class_run, dash, at_end, is_command_id, is_node_ref, initial_then, class_upto,
  is_body_hash, is_action_name, place_from, all_space, is_space, decimal_from, concat,
}
use ppflight_agent.Meter.Types.{active, Assignment}
use ppflight_agent.Control.Command.{pos, Command, Encoding, canonical_command_body}
use ppflight_agent.Control.Actions.{find_action, spec_of, resource_key}
use ppflight_agent.Control.Verify.{
  verify_ed25519, verify_signature, bad_envelope, bad_authority, bad_timing, verify_authority,
  verify_scope, policy, verify, hash_matches,
}
use ppflight_agent.Control.Checks.{VerifyConfig, Primitives, denied, expired, lookup}
use ppflight_agent.Control.Verify.Sound.{IsVerified, verify-IsVerified}
use ppflight_agent.Control.Verify.Denied.{verify-denied}

abbrev sha : String
sha = "0000000000000000000000000000000000000000000000000000000000000000"

abbrev binding : String
binding = "11111111-1111-4111-8111-111111111111"

abbrev pub command : Command
command = record {
  schema_version = pos 1;
  command_id = "command";
  operation_id = "operation";
  idempotency_key = "key";
  agent_ref = "agent";
  binding_id = binding;
  device_id = "device";
  credential_epoch = 2;
  assignment_revision = 3;
  signing_key_id = "signer";
  scope = "vm";
  issued_at = 1000;
  expires_at = 2000;
  identity = record {
    service_ref = "service";
    cluster_ref = "c1";
    node_ref = "pve1";
    vmid = pos 107;
    generation = 1;
    instance_uuid = "vm-1";
    guest_type = "qemu";
  };
  action = "vm.start";
  parameters = 123 ∷ 125 ∷ [];
  operator_ref = "operator";
  approval_ref = "approval";
  body_sha256 = sha;
  signature = "signature";
}

abbrev assignment : Assignment
assignment = record {
  service_ref = "service";
  cluster_ref = "c1";
  node_ref = "";
  vmid = 107;
  generation = 1;
  instance_uuid = "vm-1";
  guest_type = "qemu";
  billing = active;
  cutover_at = none;
  nic_bindings = [];
}

abbrev pub encoding : Encoding
encoding = record { is_json = λ bs. true; marshal = λ b. some (1 ∷ []); sha256 = λ bs. sha }

abbrev zeros : ℕ → List ℕ
zeros zero = []
zeros (suc n) = 0 ∷ zeros n

abbrev pub primitives : Primitives
primitives = record {
  encoding = encoding;
  hex_decode = λ s. none;
  hex_encode = λ bs. "";
  base64_decode = λ s. some (zeros 64);
  base64_encode = λ bs. "signature";
  hmac = λ secret payload. [];
  ed25519_verify = λ key payload provided. true;
  clock = 1500;
  valid_parameters = λ c. true;
}

abbrev pub config : VerifyConfig
config = record {
  agent_ref = "agent";
  cluster_ref = "c1";
  binding_id = binding;
  device_id = "device";
  credential_epoch = 2;
  assignment_revision = some 3;
  signing_key_id = "signer";
  public_key = zeros 32;
  mode = "production";
  secret = [];
  allowed = λ action. true;
  assignments = some (assignment ∷ []);
  now = 1500;
  max_clock_skew = 0;
  max_lifetime = 0;
}

abbrev late : VerifyConfig
late = record config { now = 2500 }

accepts : verify primitives command config ≡ none
unfolding verify policy verify_signature verify_ed25519 verify_scope verify_authority bad_timing
    bad_authority bad_envelope lookup is_uuid class_run dash at_end is_command_id is_node_ref
    initial_then class_upto is_body_hash is_action_name place_from all_space is_space decimal_from
    concat canonical_command_body find_action spec_of
accepts = refl

refuses : verify primitives command late ≡ some (denied expired)
unfolding verify policy verify_signature verify_ed25519 verify_scope verify_authority bad_timing
    bad_authority bad_envelope is_uuid class_run dash at_end is_command_id is_node_ref initial_then
    class_upto is_body_hash is_action_name place_from canonical_command_body find_action spec_of
refuses = refl

key_of_entry_delete :
    resource_key (record command { action = "firewall.ipset.entry.delete" })
    ≡ some "vm:c1:qemu:107:1"
unfolding resource_key is_command_id is_node_ref initial_then class_upto decimal_from concat
    find_action spec_of
key_of_entry_delete = refl

abbrev upgrade : Command
upgrade = record command {
  scope = "node";
  action = "agent.upgrade";
  identity = record {
    service_ref = "";
    cluster_ref = "c1";
    node_ref = "pve1";
    vmid = pos 0;
    generation = 0;
    instance_uuid = "";
    guest_type = "";
  };
}

key_of_upgrade : resource_key upgrade ≡ some "node:c1:pve1"
unfolding resource_key is_command_id is_node_ref initial_then class_upto decimal_from concat
    find_action spec_of
key_of_upgrade = refl

accepts_upgrade : verify primitives upgrade config ≡ none
unfolding verify policy verify_signature verify_ed25519 verify_scope verify_authority bad_timing
    bad_authority bad_envelope lookup is_uuid class_run dash at_end is_command_id is_node_ref
    initial_then class_upto is_body_hash is_action_name place_from all_space is_space decimal_from
    concat canonical_command_body find_action spec_of
accepts_upgrade = refl

key_of_guest : resource_key command ≡ some "vm:c1:qemu:107:1"
unfolding resource_key is_command_id is_node_ref initial_then class_upto decimal_from concat
    find_action spec_of
key_of_guest = refl

verify-IsVerified_example : IsVerified primitives command config
verify-IsVerified_example = verify-IsVerified primitives command config refl accepts

verify-denied_example :
    (hash_matches primitives command late ≡ true)
    × (verify_signature primitives command late ≡ none)
    × (policy primitives command late ≡ some expired)
verify-denied_example = verify-denied primitives command late expired refuses
