-- ===== src/Lifecycle/Plan.antt =====
-- `RecoveryPlan` and `plan_recovery`.
use aipcs_mcp.Prelude.{
  if◌then◌else◌, same, is_none, ok, err, Bool, true, false, not, Option, none, some,
}
use aipcs_mcp.Platform.{LifecycleKind, materialise, evolve}
use aipcs_mcp.Lifecycle.Vocabulary.{
  Checked, LifecyclePhase-discrete, LifecyclePhase, FoundationObservation, DomainObservation,
  RecoveryAction, prepare_foundation, apply_initial_schema, apply_transition, finalize_registry,
  replay_complete, defer_observation, DeferredResult, LifecycleResultCategory, plan_invalid,
  kind_mismatch, phase_mismatch,
}
use aipcs_mcp.Lifecycle.Observation.{
  MaterialiseRecoveryObservation, EvolveRecoveryObservation, LifecycleObservation,
  materialise_observation, evolve_observation,
}

pub record RecoveryPlan : Type 0 where
  pub action : RecoveryAction
  pub deferred_result : Option DeferredResult

-- `RecoveryPlan.__post_init__`
unfoldable pub valid_plan : RecoveryAction → Option DeferredResult → Bool
valid_plan defer_observation deferred = not (is_none deferred)
valid_plan _ deferred = is_none deferred

unfoldable pub recovery_plan : RecoveryAction → Option DeferredResult → Checked RecoveryPlan
unfolding valid_plan
recovery_plan action deferred =
    if valid_plan action deferred
    then ok (record { action = action; deferred_result = deferred })
    else err plan_invalid

unfoldable pub lifecycle_result_retryable : LifecycleResultCategory → Bool
lifecycle_result_retryable LifecycleResultCategory.storage_busy = true
lifecycle_result_retryable LifecycleResultCategory.operation_in_progress = true
lifecycle_result_retryable LifecycleResultCategory.operation_uncertain = true
lifecycle_result_retryable _ = false

abbrev deferred_category : Option DeferredResult → Option LifecycleResultCategory
deferred_category none = none
deferred_category (some DeferredResult.storage_busy) = some LifecycleResultCategory.storage_busy
deferred_category (some DeferredResult.operation_uncertain) =
    some LifecycleResultCategory.operation_uncertain
deferred_category (some DeferredResult.storage_unavailable) =
    some LifecycleResultCategory.storage_unavailable

abbrev category_of : RecoveryAction → Option DeferredResult → Option LifecycleResultCategory
category_of RecoveryAction.recovery_required deferred =
    some LifecycleResultCategory.recovery_required
category_of _ deferred = deferred_category deferred

unfoldable pub result_category : RecoveryPlan → Option LifecycleResultCategory
result_category plan = category_of plan.action plan.deferred_result

unfoldable pub retryable : RecoveryPlan → Bool
unfolding result_category lifecycle_result_retryable
retryable plan = elim (result_category plan) [
  | none ↦ false
  | some c ↦ lifecycle_result_retryable c
]

unfoldable pub deferred_foundation : FoundationObservation → Option DeferredResult
deferred_foundation FoundationObservation.busy = some DeferredResult.storage_busy
deferred_foundation FoundationObservation.uncertain = some DeferredResult.operation_uncertain
deferred_foundation FoundationObservation.unavailable = some DeferredResult.storage_unavailable
deferred_foundation _ = none

unfoldable pub deferred_domain : DomainObservation → Option DeferredResult
deferred_domain DomainObservation.busy = some DeferredResult.storage_busy
deferred_domain DomainObservation.uncertain = some DeferredResult.operation_uncertain
deferred_domain DomainObservation.unavailable = some DeferredResult.storage_unavailable
deferred_domain _ = none

-- `if deferred is not None: return deferred`
abbrev or_plan : Option DeferredResult → Checked RecoveryPlan → Checked RecoveryPlan
or_plan none next = next
or_plan (some d) next = recovery_plan defer_observation (some d)

abbrev materialise_domain_plan : DomainObservation → Checked RecoveryPlan
materialise_domain_plan DomainObservation.unmaterialised = recovery_plan apply_initial_schema none
materialise_domain_plan DomainObservation.ready = recovery_plan finalize_registry none
materialise_domain_plan _ = recovery_plan RecoveryAction.recovery_required none

abbrev materialise_foundation_plan :
    FoundationObservation → DomainObservation → Checked RecoveryPlan
materialise_foundation_plan FoundationObservation.uninitialised target =
    recovery_plan prepare_foundation none
materialise_foundation_plan FoundationObservation.outdated target =
    recovery_plan prepare_foundation none
materialise_foundation_plan FoundationObservation.dirty target =
    recovery_plan prepare_foundation none
materialise_foundation_plan FoundationObservation.incompatible target =
    recovery_plan RecoveryAction.recovery_required none
materialise_foundation_plan _ target =
    or_plan (deferred_domain target) (materialise_domain_plan target)

unfoldable pub plan_materialise : MaterialiseRecoveryObservation → Checked RecoveryPlan
unfolding recovery_plan deferred_domain
plan_materialise o = materialise_foundation_plan o.foundation o.target

abbrev evolve_source_plan : DomainObservation → Checked RecoveryPlan
evolve_source_plan DomainObservation.ready = recovery_plan apply_transition none
evolve_source_plan _ = recovery_plan RecoveryAction.recovery_required none

-- The branches on `target`, after its own deferral.
unfoldable pub evolve_target_plan : DomainObservation → DomainObservation → Checked RecoveryPlan
unfolding recovery_plan deferred_domain
evolve_target_plan DomainObservation.ready source = recovery_plan finalize_registry none
evolve_target_plan DomainObservation.unmaterialised source =
    or_plan (deferred_domain source) (recovery_plan RecoveryAction.recovery_required none)
evolve_target_plan DomainObservation.incompatible source =
    or_plan (deferred_domain source) (evolve_source_plan source)
evolve_target_plan _ source = recovery_plan RecoveryAction.recovery_required none

abbrev evolve_foundation_plan :
    FoundationObservation → DomainObservation → DomainObservation → Checked RecoveryPlan
evolve_foundation_plan FoundationObservation.outdated target source =
    recovery_plan prepare_foundation none
evolve_foundation_plan FoundationObservation.dirty target source =
    recovery_plan prepare_foundation none
evolve_foundation_plan FoundationObservation.ready target source =
    or_plan (deferred_domain target) (evolve_target_plan target source)
evolve_foundation_plan _ target source = recovery_plan RecoveryAction.recovery_required none

unfoldable pub plan_evolve : EvolveRecoveryObservation → Checked RecoveryPlan
unfolding recovery_plan deferred_domain evolve_target_plan
plan_evolve o = evolve_foundation_plan o.foundation o.target o.source

abbrev plan_materialise_at : LifecyclePhase → MaterialiseRecoveryObservation → Checked RecoveryPlan
plan_materialise_at LifecyclePhase.completed o = recovery_plan replay_complete none
plan_materialise_at LifecyclePhase.recovery_required o =
    recovery_plan RecoveryAction.recovery_required none
plan_materialise_at LifecyclePhase.prepared o =
    or_plan (deferred_foundation o.foundation) (plan_materialise o)

abbrev plan_evolve_at : LifecyclePhase → EvolveRecoveryObservation → Checked RecoveryPlan
plan_evolve_at LifecyclePhase.completed o = recovery_plan replay_complete none
plan_evolve_at LifecyclePhase.recovery_required o =
    recovery_plan RecoveryAction.recovery_required none
plan_evolve_at LifecyclePhase.prepared o =
    or_plan (deferred_foundation o.foundation) (plan_evolve o)

-- `plan_recovery(intent, observation)` reads the kind and the phase of the intent.
unfoldable pub plan_recovery :
    LifecycleKind → LifecyclePhase → LifecycleObservation → Checked RecoveryPlan
unfolding plan_materialise plan_evolve deferred_foundation LifecyclePhase-discrete
plan_recovery materialise phase (materialise_observation o) =
    if same LifecyclePhase-discrete o.phase phase
    then plan_materialise_at phase o
    else err phase_mismatch
plan_recovery evolve phase (evolve_observation o) =
    if same LifecyclePhase-discrete o.phase phase
    then plan_evolve_at phase o
    else err phase_mismatch
plan_recovery _ phase _ = err kind_mismatch
