-- ===== src/Operational/Command.antt =====
-- The commands of operational_lifecycle.py, their checks, and the states that they lead to.
use aipcs_mcp.Prelude.{
  ltb, leb, ◌==◌, Text, ◌>>◌, reject, Result, ok, ℕ, Bool, true, false, not, ◌&&◌,
}
use aipcs_mcp.Lifecycle.{
  max_service_revision, max_principal_length, max_created_via_length, max_idempotency_key_length,
  valid_text,
}
use aipcs_mcp.Registry.{DesignState, OperationalStatus}

pub data OperationalLifecycleKind : Type 0 where
  suspend resume archive restore : OperationalLifecycleKind

pub data OperationalLifecyclePhase : Type 0 where
  prepared completed recovery_required : OperationalLifecyclePhase

-- The messages of `OperationalLifecycleContractError`.
pub data OperationalLifecycleContractError : Type 0 where
  principal_refused created_via_refused service_id_refused revision_refused key_refused
        target_status_refused fingerprint_refused fingerprint_differs phase_refused
        transition_unsupported :
      OperationalLifecycleContractError

abbrev pub Operational : Type 0 → Type 0
Operational A = Result OperationalLifecycleContractError A

-- The fields of the four command classes.
pub record OperationalFields : Type 0 where
  pub principal_id : Text
  pub created_via : Text
  pub service_id : ℕ
  pub expected_service_revision : ℕ
  pub idempotency_key : Text

-- One of the four classes, by its kind.
pub record OperationalLifecycleCommand : Type 0 where
  pub kind : OperationalLifecycleKind
  pub fields : OperationalFields

-- `canonical_operational_lifecycle_payload`
pub record OperationalPayload : Type 0 where
  pub kind : OperationalLifecycleKind
  pub principal : Text
  pub created_via : Text
  pub service_id : ℕ
  pub expected_service_revision : ℕ
  pub target_operational_status : OperationalStatus

unfoldable pub OperationalLifecyclePhase-discrete : Discrete OperationalLifecyclePhase
OperationalLifecyclePhase-discrete = hlevel

unfoldable pub OperationalStatus-discrete : Discrete OperationalStatus
OperationalStatus-discrete = hlevel

-- `_validate_command_fields`
unfoldable pub validate_command_fields : OperationalFields → Operational (Unit {0})
unfolding valid_text
validate_command_fields c = do
  reject (not (valid_text c.principal_id max_principal_length)) principal_refused
  reject (not (valid_text c.created_via max_created_via_length)) created_via_refused
  reject (c.service_id == 0) service_id_refused
  reject
      (not
        (leb 1 c.expected_service_revision && ltb c.expected_service_revision max_service_revision))
      revision_refused
  reject (not (valid_text c.idempotency_key max_idempotency_key_length)) key_refused

-- The constructors of the four classes.
unfoldable pub make_operational_command :
    OperationalLifecycleKind → OperationalFields → Operational OperationalLifecycleCommand
unfolding validate_command_fields
make_operational_command kind c = do
  validate_command_fields c
  ok (record { kind = kind; fields = c })

unfoldable pub deterministic_target_status : OperationalLifecycleKind → OperationalStatus
deterministic_target_status suspend = OperationalStatus.suspended
deterministic_target_status resume = OperationalStatus.active
deterministic_target_status archive = OperationalStatus.archived
deterministic_target_status restore = OperationalStatus.suspended

-- `current_operational_status in allowed_sources[command.kind]`
abbrev pub is_allowed_source : OperationalLifecycleKind → OperationalStatus → Bool
is_allowed_source suspend OperationalStatus.active = true
is_allowed_source resume OperationalStatus.suspended = true
is_allowed_source archive OperationalStatus.active = true
is_allowed_source archive OperationalStatus.suspended = true
is_allowed_source restore OperationalStatus.archived = true
is_allowed_source _ status = false

-- The design state and the status are of their enumerations.
unfoldable pub transition_target_status :
    OperationalLifecycleCommand → DesignState → OperationalStatus → Operational OperationalStatus
unfolding deterministic_target_status
transition_target_status command state current = do
  reject (not (is_allowed_source command.kind current)) transition_unsupported
  ok (deterministic_target_status command.kind)

unfoldable pub canonical_operational_lifecycle_payload :
    OperationalLifecycleCommand → OperationalPayload
unfolding deterministic_target_status
canonical_operational_lifecycle_payload command = record {
  kind = command.kind;
  principal = command.fields.principal_id;
  created_via = command.fields.created_via;
  service_id = command.fields.service_id;
  expected_service_revision = command.fields.expected_service_revision;
  target_operational_status = deterministic_target_status command.kind;
}
