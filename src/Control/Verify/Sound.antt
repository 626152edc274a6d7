-- ===== src/Control/Verify/Sound.antt =====
-- What `Verify` of internal/control/types.go lets through.
use ppflight_agent.Control.Verify.Logic.{
  signed_body-true, decoded-true, unrefused, not-false, or_false, and_false, and-true, also-none,
  refuse-none, refuse-not-none,
}
use ppflight_agent.Prelude.{
  ℕ, ◌+◌, ◌≤◌, ◌<◌, ◌≡◌, refl, ap, sym, ◌∙◌, Bool, true, false, not, ◌&&◌, ◌||◌, Option, none, some,
  List, arith, ◌=ˢ◌, if◌then◌else◌, str_eq→eq, ==→eq,
}
use ppflight_agent.Control.Checks.{parameters_invalid, approval_missing}
use ppflight_agent.Prelude.Text.{codes, all_space, is_node_ref}
use ppflight_agent.Meter.Types.{Assignment}
use ppflight_agent.Control.Command.{Command, canonical_command_body}
use ppflight_agent.Control.Actions.{is_action_scope, requires_approval}
use ppflight_agent.Control.Verify.{
  names_key, is_genuine, verify_ed25519, verify_signature, bad_timing, matches_revision,
  verify_authority, assigned, is_assigned, verify_assignment, verify_kind, no_vm, bad_vm,
  verify_scope, policy, denied_policy, verify, now_of, skew_of, lifetime_of,
}
use ppflight_agent.Control.Checks.{
  Reason, VerifyConfig, Primitives, ◌also◌, refuse, is_present, scope_invalid,
}

module _ (x : Primitives) (c : Command) (cfg : VerifyConfig) where
  -- The active key's signature of the whole body of the command.
  pub record IsSigned : Type 0 where
    pub payload : List ℕ
    pub provided : List ℕ
    pub encoded : canonical_command_body x.encoding c ≡ some payload
    pub carried : x.base64_decode c.signature ≡ some provided
    pub genuine : x.ed25519_verify cfg.public_key payload provided ≡ true
    pub key : c.signing_key_id ≡ cfg.signing_key_id

  pub record IsAddressed : Type 0 where
    pub binding : c.binding_id ≡ cfg.binding_id
    pub device : c.device_id ≡ cfg.device_id
    pub epoch : c.credential_epoch ≡ cfg.credential_epoch
    pub revision : cfg.assignment_revision ≡ some c.assignment_revision

  pub record IsTimely : Type 0 where
    pub started : c.issued_at ≤ now_of x c cfg + skew_of x c cfg
    pub recent : now_of x c cfg ≤ c.issued_at + lifetime_of x c cfg
    pub valid : now_of x c cfg < c.expires_at
    pub short : c.expires_at ≤ c.issued_at + lifetime_of x c cfg

  -- The VM's assignment in the inventory has the identity of the command.
  pub record IsAssigned : Type 0 where
    pub inventory : List Assignment
    pub assignment : Assignment
    pub known : cfg.assignments ≡ some inventory
    pub found : assigned x c cfg inventory ≡ some assignment
    pub service : assignment.service_ref ≡ c.identity.service_ref
    pub instance_uuid : assignment.instance_uuid ≡ c.identity.instance_uuid
    pub generation : assignment.generation ≡ c.identity.generation

  pub record IsVerified : Type 0 where
    pub signed : IsSigned
    pub addressed : IsAddressed
    pub timely : IsTimely
    pub allowed : cfg.allowed c.action ≡ true
    pub scoped : is_action_scope c.action c.scope ≡ true
    pub assignment : (c.scope =ˢ "vm") ≡ true → IsAssigned
    pub approved : requires_approval c.action ≡ true → all_space (codes c.approval_ref) ≡ false

  ed25519-IsSigned : verify_ed25519 x c cfg ≡ none → IsSigned
  unfolding verify_ed25519
  ed25519-IsSigned h =
      let (a, b) = also-none _ _ h in
      let key : names_key x c cfg ≡ true = refuse-not-none (names_key x c cfg) _ a in
      let (provided, d, e, good) =
        decoded-true (x.base64_decode c.signature) x.base64_encode c.signature (is_genuine x c cfg)
          (refuse-not-none _ _ b) in
      let (payload, s, g) =
        signed_body-true (canonical_command_body x.encoding c)
          (λ payload. x.ed25519_verify cfg.public_key payload provided) (and-true _ _ good).1 in
      record {
        payload = payload;
        provided = provided;
        encoded = s;
        carried = d;
        genuine = g;
        key = str_eq→eq c.signing_key_id cfg.signing_key_id (ground arith);
      }

  -- In production the Ed25519 key is asked.
  production-IsSigned : (cfg.mode =ˢ "test") ≡ false → verify_signature x c cfg ≡ none → IsSigned
  unfolding verify_signature
  production-IsSigned p h = ed25519-IsSigned (ground arith)

  matches_revision-IsAddressed :
      (o : Option ℕ) → cfg.assignment_revision ≡ o → matches_revision x c cfg o ≡ true → IsAddressed
  matches_revision-IsAddressed none k h = absurd (cc)
  matches_revision-IsAddressed (some revision) k h =
      let same : c.assignment_revision ≡ revision = ==→eq _ revision (ground arith) in
      record {
        binding = str_eq→eq c.binding_id cfg.binding_id (ground arith);
        device = str_eq→eq c.device_id cfg.device_id (ground arith);
        epoch = ==→eq c.credential_epoch cfg.credential_epoch (ground arith);
        revision = k ∙ ap some (sym same);
      }

  authority-IsAddressed :
      (cfg.mode =ˢ "test") ≡ false → verify_authority x c cfg ≡ none → IsAddressed
  unfolding verify_authority
  authority-IsAddressed p h =
      matches_revision-IsAddressed cfg.assignment_revision refl (ground arith)

  bad_timing-IsTimely : bad_timing x c cfg ≡ false → IsTimely
  unfolding bad_timing
  bad_timing-IsTimely h = record {
    started = ground arith;
    recent = ground arith;
    valid = ground arith;
    short = ground arith;
  }

  is_assigned-IsAssigned :
      (inventory : List Assignment) (o : Option Assignment)
      → cfg.assignments ≡ some inventory
      → assigned x c cfg inventory ≡ o
      → is_assigned x c cfg o ≡ true
      → IsAssigned
  is_assigned-IsAssigned inventory none k f h = absurd (cc)
  is_assigned-IsAssigned inventory (some a) k f h = record {
    inventory = inventory;
    assignment = a;
    known = k;
    found = f;
    service = str_eq→eq a.service_ref c.identity.service_ref (ground arith);
    instance_uuid = str_eq→eq a.instance_uuid c.identity.instance_uuid (ground arith);
    generation = ==→eq a.generation c.identity.generation (ground arith);
  }

  verify_assignment-IsAssigned :
      (o : Option (List Assignment))
      → cfg.assignments ≡ o
      → verify_assignment x c cfg o ≡ none
      → IsAssigned
  verify_assignment-IsAssigned none k h = absurd (cc)
  verify_assignment-IsAssigned (some inventory) k h =
      is_assigned-IsAssigned inventory (assigned x c cfg inventory) k refl (refuse-not-none _ _ h)

  -- What the scope's branch checked.
  abbrev Scoped : Type 0
  Scoped = (is_action_scope c.action c.scope ≡ true) × ((c.scope =ˢ "vm") ≡ true → IsAssigned)

  verify_kind-Scoped : verify_kind x c cfg ≡ none → Scoped
  verify_kind-Scoped =
      go (c.scope =ˢ "cluster") (c.scope =ˢ "node") (c.scope =ˢ "vm")
        (λ e. rw (str_eq→eq c.scope "cluster" e) refl) (λ e. rw (str_eq→eq c.scope "node" e) refl)
    where
      go :
          (cluster node vm : Bool)
          → (cluster ≡ true → vm ≡ false)
          → (node ≡ true → vm ≡ false)
          → (if cluster
              then refuse
                  (not (is_action_scope c.action c.scope)
                    || is_present c.identity.node_ref
                    || not (no_vm x c cfg))
                  scope_invalid
              else if node
              then refuse
                  (not (is_action_scope c.action c.scope)
                    || not (is_node_ref c.identity.node_ref)
                    || not (no_vm x c cfg))
                  scope_invalid
              else if vm
              then refuse (not (is_action_scope c.action c.scope) || bad_vm x c cfg) scope_invalid
                also verify_assignment x c cfg cfg.assignments
              else some scope_invalid)
            ≡ none
          → (is_action_scope c.action c.scope ≡ true) × (vm ≡ true → IsAssigned)
      go true node vm e f k =
          (unrefused _ _ (or_false _ _ (refuse-none _ _ k)).0, λ v. absurd (cc (e refl)))
      go false true vm e f k =
          (unrefused _ _ (or_false _ _ (refuse-none _ _ k)).0, λ v. absurd (cc (f refl)))
      go false false true e f k =
          let (a, b) = also-none _ _ k in
          (
            not-false _ (or_false _ _ (refuse-none _ _ a)).0,
            λ v. verify_assignment-IsAssigned cfg.assignments refl b,
          )
      go false false false e f k = absurd (cc)

  verify_scope-Scoped : verify_scope x c cfg ≡ none → Scoped
  unfolding verify_scope
  verify_scope-Scoped h = verify_kind-Scoped (also-none _ _ h).1

  denied_policy-none : (o : Option Reason) → denied_policy x c cfg o ≡ none → o ≡ none
  denied_policy-none none h = refl
  denied_policy-none (some r) h = absurd (cc)

  -- A command that `Verify` accepts in production carries the active key's Ed25519 signature of its whole
  -- body, is addressed to the active binding, device, credential epoch and assignment revision, is
  -- within its validity, asks for an allowed action in a scope of that action, has on a VM the
  -- identity of the VM's assignment, and names an approval unless it only reads.
  pub verify-IsVerified : (cfg.mode =ˢ "test") ≡ false → verify x c cfg ≡ none → IsVerified
  unfolding verify policy
  verify-IsVerified p h =
      let (hash, h1) = also-none _ _ h in
      let (signature, h2) = also-none _ _ h1 in
      let k = denied_policy-none (policy x c cfg) h2 in
      let (_, k1) = also-none _ _ k in
      let (_, k2) = also-none _ _ k1 in
      let (allowed, k3) = also-none _ _ k2 in
      let (timing, k4) = also-none _ _ k3 in
      let (authority, k5) = also-none _ _ k4 in
      let (scope, k6) = also-none _ _ k5 in
      let (_, k7) =
        also-none (refuse (not (x.valid_parameters c)) parameters_invalid)
          (refuse (requires_approval c.action && all_space (codes c.approval_ref)) approval_missing)
          k6 in
      let (scoped, assignment) = verify_scope-Scoped scope in
      record {
        signed = production-IsSigned p signature;
        addressed = authority-IsAddressed p authority;
        timely = bad_timing-IsTimely (refuse-none _ _ timing);
        allowed = refuse-not-none _ _ allowed;
        scoped = scoped;
        assignment = assignment;
        approved = λ r. and_false r (refuse-none _ approval_missing k7);
      }
