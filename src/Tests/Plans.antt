-- ===== src/Tests/Plans.antt =====
-- The theorems on the search, manifests, intents and plans, at concrete inputs.
use aipcs_mcp.Prelude.{
  elem, Text-discrete, codes, ok, err, ◌≡◌, refl, ◌≢◌, ◌↔◌, ◌⊎◌, Bool, true, false, none, some,
  List, [], ◌∷◌, arith,
}
use aipcs_mcp.Cycle.{
  unmarked, any_visit, visit, has_directed_cycle, out_of_fuel, Walk, IsSearchable,
  has_directed_cycle-iff-Walk,
}
use aipcs_mcp.Cycle.Correct.{has_directed_cycle-iff-Walk, IsSearchable}
use aipcs_mcp.Samples.{
  notes, tagged_notes, no_strip, tagged_notes_valid, platform, strips, request, request_intent,
  prepares,
}
use aipcs_mcp.Manifest.{required_targets, relationship_ends, valid_manifest}
use aipcs_mcp.Manifest.Acyclic.{valid_manifest-acyclic}
use aipcs_mcp.Manifest.Detached.{model_validate_idem}
use aipcs_mcp.Platform.{LifecycleKind}
use aipcs_mcp.Lifecycle.{
  LifecyclePhase, FoundationObservation, DomainObservation, apply_transition, defer_observation,
  DeferredResult, phase_not_monotonic, valid_evolve, LifecycleObservation, evolve_observation,
  retryable, plan_recovery, RecoveryPlan, manifest_snapshot, lifecycle_fingerprint,
  materialise_command, with_phase, LifecycleIntent, Evidence,
}
use aipcs_mcp.Lifecycle.Intents.{with_phase_once, prepare_intent-IsIntent, IsIntent}
use aipcs_mcp.Lifecycle.Recovery.{Evidence}
use aipcs_mcp.Lifecycle.Planning.{plan_recovery_total, plan_recovery-iff-Evidence, retryable_iff}

abbrev bools : List Bool
bools = true ∷ false ∷ []

bool_discrete : Discrete Bool
bool_discrete = hlevel

-- Each Boolean has an edge to `true`.
abbrev to_true : Bool → List Bool
to_true b = true ∷ []

each_bool : (a : Bool) → elem bool_discrete a bools ≡ true
unfolding bool_discrete
each_bool true = refl
each_bool false = refl

bools-IsSearchable : IsSearchable bool_discrete to_true bools bools
bools-IsSearchable = record {
  starts = λ a i. i;
  within = λ a b i e. each_bool b;
  sources = λ a b i e. i;
}

has_directed_cycle-iff-Walk_example :
    (any_visit (visit bool_discrete to_true 3) bools unmarked ≢ out_of_fuel)
    × (has_directed_cycle bool_discrete to_true bools bools ≡ false
        ↔ ((a : Bool) → elem bool_discrete a bools ≡ true → ¬ Walk bool_discrete to_true a a))
has_directed_cycle-iff-Walk_example =
    has_directed_cycle-iff-Walk bool_discrete to_true bools bools bools-IsSearchable

tagged_notes_pass : valid_manifest tagged_notes ≡ true
tagged_notes_pass = (model_validate_idem no_strip (λ s. refl) tagged_notes tagged_notes_valid).1

valid_manifest-acyclic_example :
    ¬ Walk Text-discrete (required_targets tagged_notes) (codes "tag") (codes "tag")
unfolding relationship_ends Text-discrete
valid_manifest-acyclic_example =
    valid_manifest-acyclic tagged_notes tagged_notes_pass (codes "tag") refl

-- An interrupted evolution whose target is missing and whose source is there.
abbrev observation : LifecycleObservation
observation = evolve_observation (record {
  phase = LifecyclePhase.prepared;
  foundation = FoundationObservation.ready;
  target = DomainObservation.incompatible;
  source = DomainObservation.ready;
})

abbrev transition_plan : RecoveryPlan
transition_plan = record { action = apply_transition; deferred_result = none }

plans : plan_recovery LifecycleKind.evolve LifecyclePhase.prepared observation ≡ ok transition_plan
unfolding plan_recovery
plans = refl

plan_recovery_total_example :
    (plan : RecoveryPlan) × (plan_recovery LifecycleKind.evolve LifecyclePhase.prepared observation
      ≡ ok plan)
    × ((plan.action ≡ defer_observation) ↔ (plan.deferred_result ≢ none))
plan_recovery_total_example =
    plan_recovery_total LifecycleKind.evolve LifecyclePhase.prepared observation refl

plan_recovery-iff-Evidence_example :
    (transition_plan.action ≡ apply_transition) ↔ Evidence observation apply_transition
unfolding valid_evolve
plan_recovery-iff-Evidence_example =
    plan_recovery-iff-Evidence LifecycleKind.evolve LifecyclePhase.prepared observation
      transition_plan apply_transition refl refl plans

retryable_iff_example : (retryable transition_plan ≡ true) ↔ (
    (transition_plan.action ≡ defer_observation)
    × ((transition_plan.deferred_result ≡ some DeferredResult.storage_busy)
        ⊎ (transition_plan.deferred_result ≡ some DeferredResult.operation_uncertain)))
retryable_iff_example =
    retryable_iff LifecycleKind.evolve LifecyclePhase.prepared observation transition_plan plans

prepare_intent-IsIntent_example :
    IsIntent platform request_intent
    × (request_intent.phase ≡ LifecyclePhase.prepared)
    × (request_intent.kind ≡ LifecycleKind.materialise)
    × (request_intent.fields ≡ request 7)
    × (request_intent.fingerprint
        ≡ lifecycle_fingerprint platform (materialise_command (request 7)))
    × (manifest_snapshot platform notes ≡ ok request_intent.target_manifest)
prepare_intent-IsIntent_example =
    prepare_intent-IsIntent platform strips (materialise_command (request 7)) notes prepares

request_intent-IsIntent : IsIntent platform request_intent
request_intent-IsIntent =
    (prepare_intent-IsIntent platform strips (materialise_command (request 7)) notes prepares).0

is_completed : LifecyclePhase.completed ≢ LifecyclePhase.prepared
is_completed e = absurd (ground arith)

abbrev completed_intent : LifecycleIntent
completed_intent = record request_intent { phase = LifecyclePhase.completed }

with_phase_once_example :
    (with_phase platform request_intent LifecyclePhase.completed ≡ ok completed_intent)
    × IsIntent platform completed_intent
    × ((next : LifecyclePhase)
        → with_phase platform completed_intent next ≡ err phase_not_monotonic)
with_phase_once_example =
    with_phase_once platform strips request_intent LifecyclePhase.completed request_intent-IsIntent
      refl is_completed
