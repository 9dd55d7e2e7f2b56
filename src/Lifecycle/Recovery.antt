-- ===== src/Lifecycle/Recovery.antt =====
-- When `plan_recovery` of lifecycle.py chooses each action.
use aipcs_mcp.Prelude.{ok, ◌≡◌, ◌⊎◌, Bool, true, arith}
use aipcs_mcp.Platform.{LifecycleKind, materialise, evolve}
use aipcs_mcp.Lifecycle.Vocabulary.{
  LifecyclePhase, FoundationObservation, DomainObservation, RecoveryAction, prepare_foundation,
  apply_initial_schema, apply_transition, finalize_registry, replay_complete, defer_observation,
}
use aipcs_mcp.Lifecycle.Observation.{
  is_transient_foundation, is_transient, valid_materialise, valid_evolve,
  MaterialiseRecoveryObservation, EvolveRecoveryObservation, LifecycleObservation,
  materialise_observation, evolve_observation,
}
use aipcs_mcp.Lifecycle.Plan.{plan_recovery, RecoveryPlan}

abbrev pub valid_observation : LifecycleObservation → Bool
valid_observation (materialise_observation o) = valid_materialise o
valid_observation (evolve_observation o) = valid_evolve o

-- The observation was made for an intent of this kind and phase.
abbrev pub Matches : LifecycleKind → LifecyclePhase → LifecycleObservation → Type 0
Matches materialise phase (materialise_observation o) = o.phase ≡ phase
Matches materialise phase (evolve_observation o) = ⊥
Matches evolve phase (materialise_observation o) = ⊥
Matches evolve phase (evolve_observation o) = o.phase ≡ phase

abbrev pub phase_of : LifecycleObservation → LifecyclePhase
phase_of (materialise_observation o) = o.phase
phase_of (evolve_observation o) = o.phase

-- What an action rests on, for a materialise intent.
abbrev pub MaterialiseEvidence : MaterialiseRecoveryObservation → RecoveryAction → Type 0
MaterialiseEvidence o prepare_foundation =
    (o.phase ≡ LifecyclePhase.prepared)
    × ((o.foundation ≡ FoundationObservation.uninitialised)
        ⊎ (o.foundation ≡ FoundationObservation.outdated)
        ⊎ (o.foundation ≡ FoundationObservation.dirty))
MaterialiseEvidence o apply_initial_schema =
    (o.phase ≡ LifecyclePhase.prepared)
    × (o.foundation ≡ FoundationObservation.ready)
    × (o.target ≡ DomainObservation.unmaterialised)
MaterialiseEvidence o apply_transition = ⊥
MaterialiseEvidence o finalize_registry =
    (o.phase ≡ LifecyclePhase.prepared)
    × (o.foundation ≡ FoundationObservation.ready)
    × (o.target ≡ DomainObservation.ready)
MaterialiseEvidence o replay_complete = o.phase ≡ LifecyclePhase.completed
MaterialiseEvidence o defer_observation =
    (o.phase ≡ LifecyclePhase.prepared)
    × ((is_transient_foundation o.foundation ≡ true) ⊎ (is_transient o.target ≡ true))
MaterialiseEvidence o RecoveryAction.recovery_required =
    (o.phase ≡ LifecyclePhase.recovery_required)
    ⊎ ((o.phase ≡ LifecyclePhase.prepared)
        × ((o.foundation ≡ FoundationObservation.incompatible)
            ⊎ (o.target ≡ DomainObservation.incompatible)))

-- What an action rests on, for an evolve intent.
abbrev pub EvolveEvidence : EvolveRecoveryObservation → RecoveryAction → Type 0
EvolveEvidence o prepare_foundation =
    (o.phase ≡ LifecyclePhase.prepared)
    × ((o.foundation ≡ FoundationObservation.outdated)
        ⊎ (o.foundation ≡ FoundationObservation.dirty))
EvolveEvidence o apply_initial_schema = ⊥
EvolveEvidence o apply_transition =
    (o.phase ≡ LifecyclePhase.prepared)
    × (o.foundation ≡ FoundationObservation.ready)
    × (o.target ≡ DomainObservation.incompatible)
    × (o.source ≡ DomainObservation.ready)
EvolveEvidence o finalize_registry =
    (o.phase ≡ LifecyclePhase.prepared)
    × (o.foundation ≡ FoundationObservation.ready)
    × (o.target ≡ DomainObservation.ready)
EvolveEvidence o replay_complete = o.phase ≡ LifecyclePhase.completed
EvolveEvidence o defer_observation =
    (o.phase ≡ LifecyclePhase.prepared)
    × ((is_transient_foundation o.foundation ≡ true)
        ⊎ (is_transient o.target ≡ true)
        ⊎ (is_transient o.source ≡ true))
EvolveEvidence o RecoveryAction.recovery_required =
    (o.phase ≡ LifecyclePhase.recovery_required)
    ⊎ ((o.phase ≡ LifecyclePhase.prepared)
        × ((o.foundation ≡ FoundationObservation.uninitialised)
            ⊎ (o.foundation ≡ FoundationObservation.incompatible)
            ⊎ (o.source ≡ DomainObservation.unmaterialised)
            ⊎ (o.source ≡ DomainObservation.incompatible)))

abbrev pub Evidence : LifecycleObservation → RecoveryAction → Type 0
Evidence (materialise_observation o) = MaterialiseEvidence o
Evidence (evolve_observation o) = EvolveEvidence o

pub materialise_evidence :
    (o : MaterialiseRecoveryObservation) (plan : RecoveryPlan)
    → valid_materialise o ≡ true
    → plan_recovery materialise o.phase (materialise_observation o) ≡ ok plan
    → MaterialiseEvidence o plan.action
unfolding plan_recovery valid_materialise
materialise_evidence o plan v h = ground arith

pub materialise_decided :
    (o : MaterialiseRecoveryObservation) (plan : RecoveryPlan) (a : RecoveryAction)
    → valid_materialise o ≡ true
    → plan_recovery materialise o.phase (materialise_observation o) ≡ ok plan
    → MaterialiseEvidence o a
    → plan.action ≡ a
unfolding plan_recovery valid_materialise
materialise_decided o plan prepare_foundation v h e = ground arith
materialise_decided o plan _ v h e = ground arith

pub evolve_evidence :
    (o : EvolveRecoveryObservation) (plan : RecoveryPlan)
    → valid_evolve o ≡ true
    → plan_recovery evolve o.phase (evolve_observation o) ≡ ok plan
    → EvolveEvidence o plan.action
unfolding plan_recovery valid_evolve
evolve_evidence o plan v h = ground arith

pub evolve_decided :
    (o : EvolveRecoveryObservation) (plan : RecoveryPlan) (a : RecoveryAction)
    → valid_evolve o ≡ true
    → plan_recovery evolve o.phase (evolve_observation o) ≡ ok plan
    → EvolveEvidence o a
    → plan.action ≡ a
unfolding plan_recovery valid_evolve
evolve_decided o plan prepare_foundation v h e = ground arith
evolve_decided o plan _ v h e = ground arith
