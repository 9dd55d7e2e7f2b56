-- ===== src/Lifecycle/Vocabulary.antt =====
-- The enumerations, the bounds and the errors.
use aipcs_mcp.Prelude.{Result, ℕ, ◌-◌, ◌^◌}

abbrev pub max_service_revision : ℕ
max_service_revision = 2 ^ 63 - 1

abbrev pub max_schema_version : ℕ
max_schema_version = 65

abbrev pub max_principal_length : ℕ
max_principal_length = 128

abbrev pub max_created_via_length : ℕ
max_created_via_length = 64

abbrev pub max_idempotency_key_length : ℕ
max_idempotency_key_length = 128

pub data LifecyclePhase : Type 0 where
  prepared completed recovery_required : LifecyclePhase

pub data RecoveryState : Type 0 where
  clear pending recovery_required : RecoveryState

pub data FoundationObservation : Type 0 where
  uninitialised outdated ready dirty incompatible : FoundationObservation
  not_observed busy unavailable uncertain : FoundationObservation

pub data DomainObservation : Type 0 where
  unmaterialised ready incompatible not_observed busy unavailable uncertain : DomainObservation

pub data RecoveryAction : Type 0 where
  prepare_foundation apply_initial_schema apply_transition finalize_registry : RecoveryAction
  replay_complete defer_observation recovery_required : RecoveryAction

pub data DeferredResult : Type 0 where
  storage_busy operation_uncertain storage_unavailable : DeferredResult

pub data LifecycleResultCategory : Type 0 where
  malformed_input unsupported_transition stale_revision changed_fingerprint operation_in_progress
        recovery_required storage_busy operation_uncertain storage_unavailable internal_failure :
      LifecycleResultCategory

pub data LifecycleClaimStatus : Type 0 where
  new conflict replay_complete resume_prepared recovery_required : LifecycleClaimStatus

pub data LifecycleAdmissionStatus : Type 0 where
  prepared operation_in_progress recovery_required : LifecycleAdmissionStatus

-- The messages of `LifecycleContractError`.
pub data LifecycleContractError : Type 0 where
  principal_invalid created_via_invalid service_id_invalid revision_invalid schema_version_invalid
        key_invalid manifest_invalid fingerprint_invalid materialise_version evolve_version_bound
        evolve_version_step materialise_target evolve_target fingerprint_mismatch
        phase_not_monotonic observation_invalid plan_invalid kind_mismatch phase_mismatch
        claim_invalid admission_invalid :
      LifecycleContractError

abbrev pub Checked : Type 0 → Type 0
Checked A = Result LifecycleContractError A

unfoldable pub LifecyclePhase-discrete : Discrete LifecyclePhase
LifecyclePhase-discrete = hlevel
