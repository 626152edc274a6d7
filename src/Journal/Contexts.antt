-- ===== src/Journal/Contexts.antt =====
-- `newAuditContext` of internal/control/journal.go: what the journal keeps of a command for its audit
-- events.
use ppflight_agent.Prelude.{
  ℕ, String, Bool, true, not, ◌&&◌, Option, none, some, List, [], ◌∷◌, leb, ◌==◌, ◌=ˢ◌,
  if◌then◌else◌, length,
}
use ppflight_agent.Prelude.Text.{codes, is_node_ref, decimal_text, concat}
use ppflight_agent.Uploader.Response.{trim, same_text}
use ppflight_agent.Control.Command.{Identity, Command}
use ppflight_agent.Control.Actions.{is_guest_type}
use ppflight_agent.Journal.Types.{EventTarget, AuditContext, Outside}

abbrev no_control : List ℕ → Bool
no_control [] = true
no_control (c ∷ cs) = leb 0x20 c && not (c == 0x7f) && no_control cs

-- `validAuditText`, of a text in ASCII
unfoldable pub is_audit_text : String → ℕ → Bool
is_audit_text s limit =
    not (s =ˢ "")
    && leb (length (codes s)) limit
    && same_text (trim (codes s)) (codes s)
    && no_control (codes s)

abbrev pub names_instance : Identity → Bool
names_instance i =
    is_node_ref i.instance_uuid && is_guest_type i.guest_type && not (i.generation == 0)

abbrev pub target_text : Command → Option String
target_text c =
    let i = c.identity in
    if c.scope =ˢ "cluster"
    then some (concat ("cluster:" ∷ i.cluster_ref ∷ []))
    else if c.scope =ˢ "node"
    then if is_node_ref i.node_ref
      then some (concat ("node:" ∷ i.cluster_ref ∷ ":" ∷ i.node_ref ∷ []))
      else none
    else if c.scope =ˢ "vm"
    then if names_instance i
      then some (
          concat (
            "vm:"
            ∷ i.cluster_ref
            ∷ ":"
            ∷ i.guest_type
            ∷ ":"
            ∷ i.instance_uuid
            ∷ ":"
            ∷ decimal_text i.generation
            ∷ []))
      else none
    else none

-- `auditTargetRef`
unfoldable pub audit_target_ref : Command → Option String
unfolding is_audit_text
audit_target_ref c =
    if not (is_node_ref c.identity.cluster_ref) then none else elim (target_text c) [
      | none ↦ none
      | some text ↦ if is_audit_text text 256 then some text else none
    ]

abbrev pub target_of : Command → Option EventTarget
target_of c =
    if c.scope =ˢ "vm"
    then some (record {
      cluster_ref = c.identity.cluster_ref;
      node_ref = c.identity.node_ref;
      guest_type = c.identity.guest_type;
      vmid = c.identity.vmid;
    })
    else none

abbrev pub context_of : Command → ℕ → String → String → AuditContext
context_of c now agent_version target_ref = record {
  command_id = c.command_id;
  idempotency_key = if c.idempotency_key =ˢ "" then c.command_id else c.idempotency_key;
  operation_id = c.operation_id;
  action = c.action;
  scope = c.scope;
  target_ref = target_ref;
  target = target_of c;
  signing_key_id = c.signing_key_id;
  received_at = now;
  accepted_at = now;
  approval_ref = c.approval_ref;
  requested_by_ref = c.operator_ref;
  payload_digest = concat ("sha256:" ∷ c.body_sha256 ∷ []);
  agent_version = agent_version;
  assignment_revision = c.assignment_revision;
}

-- `newAuditContext`
unfoldable pub new_audit_context : Outside → Command → ℕ → String → Option AuditContext
new_audit_context out c now agent_version = elim (audit_target_ref c) [
  | none ↦ none
  | some target_ref ↦
      if out.is_valid_context (context_of c now agent_version target_ref)
      then some (context_of c now agent_version target_ref)
      else none
]
