-- ===== src/Lifecycle/Observation.antt =====
-- The two observation dataclasses and what their `__post_init__` accepts.
use aipcs_mcp.Prelude.{if◌then◌else◌, ok, err, Bool, true, false, not, ◌&&◌}
use aipcs_mcp.Lifecycle.Vocabulary.{
  Checked, LifecyclePhase, FoundationObservation, DomainObservation, observation_invalid,
}

pub record MaterialiseRecoveryObservation : Type 0 where
  pub phase : LifecyclePhase
  pub foundation : FoundationObservation
  pub target : DomainObservation

pub record EvolveRecoveryObservation : Type 0 where
  pub phase : LifecyclePhase
  pub foundation : FoundationObservation
  pub target : DomainObservation
  pub source : DomainObservation

pub data LifecycleObservation : Type 0 where
  materialise_observation : MaterialiseRecoveryObservation → LifecycleObservation
  evolve_observation : EvolveRecoveryObservation → LifecycleObservation

abbrev pub is_unseen : DomainObservation → Bool
is_unseen DomainObservation.not_observed = true
is_unseen _ = false

abbrev pub is_unseen_foundation : FoundationObservation → Bool
is_unseen_foundation FoundationObservation.not_observed = true
is_unseen_foundation _ = false

-- `_FOUNDATION_NON_STATE`, `_DOMAIN_NON_STATE`
abbrev pub is_transient_foundation : FoundationObservation → Bool
is_transient_foundation FoundationObservation.busy = true
is_transient_foundation FoundationObservation.unavailable = true
is_transient_foundation FoundationObservation.uncertain = true
is_transient_foundation _ = false

abbrev pub is_transient : DomainObservation → Bool
is_transient DomainObservation.busy = true
is_transient DomainObservation.unavailable = true
is_transient DomainObservation.uncertain = true
is_transient _ = false

abbrev materialise_prepared_ok : FoundationObservation → DomainObservation → Bool
materialise_prepared_ok FoundationObservation.ready target = not (is_unseen target)
materialise_prepared_ok FoundationObservation.not_observed target = false
materialise_prepared_ok _ target = is_unseen target

abbrev materialise_ok : LifecyclePhase → FoundationObservation → DomainObservation → Bool
materialise_ok LifecyclePhase.prepared foundation target = materialise_prepared_ok foundation target
materialise_ok _ foundation target = is_unseen_foundation foundation && is_unseen target

unfoldable pub valid_materialise : MaterialiseRecoveryObservation → Bool
valid_materialise o = materialise_ok o.phase o.foundation o.target

-- `_validate_ready_evolve_observation`
unfoldable pub valid_ready_evolve : DomainObservation → DomainObservation → Bool
valid_ready_evolve DomainObservation.ready source = is_unseen source
valid_ready_evolve DomainObservation.busy source = is_unseen source
valid_ready_evolve DomainObservation.unavailable source = is_unseen source
valid_ready_evolve DomainObservation.uncertain source = is_unseen source
valid_ready_evolve DomainObservation.unmaterialised DomainObservation.unmaterialised = true
valid_ready_evolve DomainObservation.unmaterialised source = is_transient source
valid_ready_evolve DomainObservation.incompatible DomainObservation.ready = true
valid_ready_evolve DomainObservation.incompatible DomainObservation.incompatible = true
valid_ready_evolve DomainObservation.incompatible source = is_transient source
valid_ready_evolve DomainObservation.not_observed source = false

abbrev evolve_prepared_ok : FoundationObservation → DomainObservation → DomainObservation → Bool
evolve_prepared_ok FoundationObservation.ready target source = valid_ready_evolve target source
evolve_prepared_ok FoundationObservation.not_observed target source = false
evolve_prepared_ok _ target source = is_unseen target && is_unseen source

abbrev evolve_ok :
    LifecyclePhase → FoundationObservation → DomainObservation → DomainObservation → Bool
evolve_ok LifecyclePhase.prepared foundation target source =
    evolve_prepared_ok foundation target source
evolve_ok _ foundation target source =
    is_unseen_foundation foundation && is_unseen target && is_unseen source

unfoldable pub valid_evolve : EvolveRecoveryObservation → Bool
unfolding valid_ready_evolve
valid_evolve o = evolve_ok o.phase o.foundation o.target o.source

-- The constructors of the dataclasses.
unfoldable pub observe_materialise :
    LifecyclePhase → FoundationObservation → DomainObservation → Checked LifecycleObservation
unfolding valid_materialise
observe_materialise phase foundation target =
    let o : MaterialiseRecoveryObservation = record {
      phase = phase;
      foundation = foundation;
      target = target;
    } in
    if valid_materialise o then ok (materialise_observation o) else err observation_invalid

unfoldable pub observe_evolve :
    LifecyclePhase
    → FoundationObservation
    → DomainObservation
    → DomainObservation
    → Checked LifecycleObservation
unfolding valid_evolve
observe_evolve phase foundation target source =
    let o : EvolveRecoveryObservation = record {
      phase = phase;
      foundation = foundation;
      target = target;
      source = source;
    } in
    if valid_evolve o then ok (evolve_observation o) else err observation_invalid
