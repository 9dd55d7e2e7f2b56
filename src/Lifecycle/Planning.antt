-- ===== src/Lifecycle/Planning.antt =====
-- `plan_recovery` of lifecycle.py as a whole: it answers, and the evidence decides the answer.
use aipcs_mcp.Prelude.{Result-cases, ok, err, ◌≡◌, ◌≢◌, ◌↔◌, ◌⊎◌, inl, inr, true, none, some, arith}
use aipcs_mcp.Platform.{LifecycleKind, materialise, evolve}
use aipcs_mcp.Lifecycle.Vocabulary.{
  LifecyclePhase, RecoveryAction, defer_observation, DeferredResult, LifecycleContractError,
}
use aipcs_mcp.Lifecycle.Observation.{
  LifecycleObservation, materialise_observation, evolve_observation,
}
use aipcs_mcp.Lifecycle.Plan.{valid_plan, retryable, plan_recovery, RecoveryPlan}
use aipcs_mcp.Lifecycle.Recovery.{
  valid_observation, Matches, phase_of, Evidence, materialise_evidence, materialise_decided,
  evolve_evidence, evolve_decided,
}

never_raises :
    (k : LifecycleKind) (phase : LifecyclePhase) (o : LifecycleObservation)
    {e : LifecycleContractError}
    → Matches k phase o
    → plan_recovery k phase o ≢ err e
unfolding plan_recovery
never_raises materialise phase (materialise_observation o) m = ground arith
never_raises materialise phase (evolve_observation o) m = absurd m
never_raises evolve phase (materialise_observation o) m = absurd m
never_raises evolve phase (evolve_observation o) m = ground arith

plan_is_valid :
    (k : LifecycleKind) (phase : LifecyclePhase) (o : LifecycleObservation) {plan : RecoveryPlan}
    → plan_recovery k phase o ≡ ok plan
    → valid_plan plan.action plan.deferred_result ≡ true
unfolding plan_recovery valid_plan
plan_is_valid materialise phase (materialise_observation o) h = ground arith
plan_is_valid materialise phase (evolve_observation o) h = cc
plan_is_valid evolve phase (materialise_observation o) h = cc
plan_is_valid evolve phase (evolve_observation o) h = ground arith

-- For an observation of the intent's kind and phase `plan_recovery` returns a plan, and the plan
-- carries a deferred result exactly when its action is to defer.
pub plan_recovery_total :
    (k : LifecycleKind) (phase : LifecyclePhase) (o : LifecycleObservation)
    → Matches k phase o
    → (plan : RecoveryPlan) × (plan_recovery k phase o ≡ ok plan)
      × ((plan.action ≡ defer_observation) ↔ (plan.deferred_result ≢ none))
unfolding valid_plan
plan_recovery_total k phase o m = elim (Result-cases (plan_recovery k phase o)) [
  | inl (plan, e) ↦ (plan, e, deferral plan (plan_is_valid k phase o e))
  | inr (x, e) ↦ absurd (never_raises k phase o m e)
]
  where
    deferral :
        (plan : RecoveryPlan)
        → valid_plan plan.action plan.deferred_result ≡ true
        → (plan.action ≡ defer_observation) ↔ (plan.deferred_result ≢ none)
    deferral plan v = ground arith

-- If the observation is one that its class accepts and `plan_recovery` returns a plan for it, then
-- the plan's action is `a` exactly when the observation is evidence for `a`.
pub plan_recovery-iff-Evidence :
    (k : LifecycleKind) (phase : LifecyclePhase) (o : LifecycleObservation) (plan : RecoveryPlan)
    (a : RecoveryAction)
    → valid_observation o ≡ true
    → phase_of o ≡ phase
    → plan_recovery k phase o ≡ ok plan
    → (plan.action ≡ a) ↔ Evidence o a
plan_recovery-iff-Evidence materialise phase (materialise_observation o) plan a v m h =
    let h' = rw (← m) at h in
    (λ e. rw e at (materialise_evidence o plan v h'), materialise_decided o plan a v h')
plan_recovery-iff-Evidence materialise phase (evolve_observation o) plan a v m h =
    absurd (unfold plan_recovery in cc)
plan_recovery-iff-Evidence evolve phase (materialise_observation o) plan a v m h =
    absurd (unfold plan_recovery in cc)
plan_recovery-iff-Evidence evolve phase (evolve_observation o) plan a v m h =
    let h' = rw (← m) at h in
    (λ e. rw e at (evolve_evidence o plan v h'), evolve_decided o plan a v h')

-- A returned plan is retryable exactly when it defers because storage is busy or its state is
-- uncertain: unavailable storage, recovery and every action are not.
pub retryable_iff :
    (k : LifecycleKind) (phase : LifecyclePhase) (o : LifecycleObservation) (plan : RecoveryPlan)
    → plan_recovery k phase o ≡ ok plan
    → (retryable plan ≡ true) ↔ (
        (plan.action ≡ defer_observation)
        × ((plan.deferred_result ≡ some DeferredResult.storage_busy)
            ⊎ (plan.deferred_result ≡ some DeferredResult.operation_uncertain)))
unfolding retryable valid_plan
retryable_iff k phase o plan h = ground (arith, plan_is_valid k phase o h)
