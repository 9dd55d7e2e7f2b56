-- ===== src/Tests/Runs.antt =====
-- The theorems on completed claims and on the coordinator, at concrete inputs.
use aipcs_mcp.Prelude.{codes, ok, ℕ, ◌+◌, ◌≤◌, ◌≡◌, refl, some, [], ◌∷◌, ◌++◌}
use aipcs_mcp.Samples.{
  platform, strips, request, seeded_notes, live_notes, request_intent, admitted, dependencies,
  fresh, closed, counts_writes, World,
}
use aipcs_mcp.Platform.{LifecycleKind}
use aipcs_mcp.Lifecycle.{
  LifecyclePhase, LifecycleResultCategory, valid_materialise, observe_materialise, plan_materialise,
  plan_recovery, valid_text, validate_common_fields, make_materialise_command, manifest_snapshot,
  canonical_lifecycle_payload, lifecycle_fingerprint, LifecycleCommand, materialise_command,
  valid_fingerprint, valid_intent_version, command_for_intent, make_intent, with_phase,
  prepare_intent, LifecycleIntent,
}
use aipcs_mcp.Manifest.{model_validate}
use aipcs_mcp.Relational.{compile_manifest}
use aipcs_mcp.Registry.{
  valid_service, MaterialisationStorage, Service, StorageBackend, DesignState, claim_row, blocker,
  stored_service, insert_claim, append, update_claim, update_live_identity, save, Registry,
  at_phase, audit_completed, audit_recovery_required, valid_terminal_service, complete_claim,
  encode_intent, decode_intent, completed_claim, recovery_required_claim, supported_lifecycle_state,
  prepared_row, is_relational, admit_target, admit_service, resolve_or_admit, valid_completion,
  finalization_preconditions, terminal_service, LifecycleCompletion, materialise_completion,
  same_intent, terminal_or_prepared, append_terminal, mark_recovery_required, complete_saved,
  finalize_completed, finalize_recovery_required,
}
use aipcs_mcp.Registry.Refinalized.{finalize_completed-again}
use aipcs_mcp.Registry.Exclusion.{
  finalize_completed-IsExclusive, finalize_recovery_required-IsExclusive,
}
use aipcs_mcp.Registry.Exclusive.{IsExclusive}
use aipcs_mcp.Coordinator.{
  LifecycleExecutionResult, completed_with, failed_with, MigrationStatus, DomainSchemaStatus,
  foundation, domain_state, observe, apply, before_commit_error, registry_outcome, terminal_write,
  write_completed, commit_prepared, admit, source_matches, valid_locator, compile, locator, prepare,
  RecoveryAction-discrete, plan_and_follow, step, rounds, execute,
}
use aipcs_mcp.Coordinator.Answers.{execute_total, execute_writes_once, unavailable_writes_nothing}

abbrev command : LifecycleCommand
command = materialise_command (request 7)

execute_total_example :
    (r : LifecycleExecutionResult × World) × ((fuel : ℕ)
      → 4 ≤ fuel
      → execute dependencies platform fuel command fresh ≡ some r)
execute_total_example = execute_total dependencies platform command fresh

cannot_open :
    execute dependencies platform 4 command closed
    ≡ some (failed_with LifecycleResultCategory.storage_unavailable, closed)
unfolding execute prepare admit before_commit_error
cannot_open = refl

unavailable_writes_nothing_example : closed.schema_writes ≡ closed.schema_writes
unavailable_writes_nothing_example =
    unavailable_writes_nothing dependencies platform (λ w. w.schema_writes) counts_writes 4 command
      closed closed cannot_open

abbrev place : MaterialisationStorage
place = record { backend = StorageBackend.sqlite; namespace = codes "svc_" ++ platform.uuid_hex 7 }

abbrev completion : LifecycleCompletion
completion = materialise_completion request_intent 3 place

abbrev materialised_notes : Service
materialised_notes = record seeded_notes {
  design_state = DesignState.materialised;
  materialised_at = some 3;
  storage = some place;
  updated_at = 3;
  last_activity_at = 3;
  service_revision = 2;
}

abbrev completed_intent : LifecycleIntent
completed_intent = record request_intent { phase = LifecyclePhase.completed }

abbrev finished : Registry
finished = record {
  services = materialised_notes ∷ [];
  claims =
      record (prepared_row request_intent) {
        phase = at_phase LifecyclePhase.completed;
        result = some materialised_notes;
      }
      ∷ [];
  audits =
      record {
        action = LifecycleKind.materialise;
        outcome = audit_completed;
        service_id = 7;
        principal_id = codes "alice";
        created_via = codes "mcp";
        at = 3;
      }
      ∷ [];
  identities = record live_notes { storage_backend = some StorageBackend.sqlite } ∷ [];
}

finalizes :
    finalize_completed platform completion admitted
    ≡ ok (completed_claim completed_intent materialised_notes, finished)
unfolding finalize_completed terminal_or_prepared claim_row decode_intent prepared_row
    manifest_snapshot make_intent validate_common_fields valid_fingerprint lifecycle_fingerprint
    canonical_lifecycle_payload valid_intent_version command_for_intent make_materialise_command
    model_validate valid_text same_intent stored_service valid_service finalization_preconditions
    terminal_service save update_live_identity with_phase update_claim complete_claim
    valid_terminal_service append_terminal append complete_saved encode_intent
finalizes = refl

abbrev materialised : World
materialised = record fresh {
  stored = finished;
  foundation = MigrationStatus.ready;
  domain = DomainSchemaStatus.ready;
  schema_writes = 1;
}

executes :
    execute dependencies platform 4 command fresh
    ≡ some (completed_with materialised_notes, materialised)
unfolding execute prepare admit before_commit_error resolve_or_admit claim_row stored_service
    model_validate admit_service supported_lifecycle_state blocker admit_target is_relational
    compile_manifest prepare_intent manifest_snapshot make_intent validate_common_fields
    valid_fingerprint lifecycle_fingerprint canonical_lifecycle_payload valid_intent_version
    command_for_intent make_materialise_command valid_text insert_claim prepared_row source_matches
    locator valid_locator compile rounds step plan_and_follow observe foundation domain_state
    plan_recovery plan_materialise observe_materialise valid_materialise apply write_completed
    finalize_completed terminal_or_prepared decode_intent same_intent valid_service
    finalization_preconditions terminal_service save update_live_identity with_phase update_claim
    complete_claim valid_terminal_service append_terminal append complete_saved encode_intent
    RecoveryAction-discrete terminal_write registry_outcome valid_completion commit_prepared
executes = refl

execute_writes_once_example : materialised.schema_writes ≤ fresh.schema_writes + 1
execute_writes_once_example =
    execute_writes_once dependencies platform (λ w. w.schema_writes) counts_writes 4 command fresh
      (completed_with materialised_notes) materialised executes

abbrev recovered_intent : LifecycleIntent
recovered_intent = record request_intent { phase = LifecyclePhase.recovery_required }

abbrev recovered : Registry
recovered = record admitted {
  claims =
      record (prepared_row request_intent) { phase = at_phase LifecyclePhase.recovery_required }
      ∷ [];
  audits =
      record {
        action = LifecycleKind.materialise;
        outcome = audit_recovery_required;
        service_id = 7;
        principal_id = codes "alice";
        created_via = codes "mcp";
        at = 3;
      }
      ∷ [];
}

recovers :
    finalize_recovery_required platform request_intent 3 admitted
    ≡ ok (recovery_required_claim recovered_intent, recovered)
unfolding finalize_recovery_required mark_recovery_required terminal_or_prepared claim_row
    decode_intent prepared_row manifest_snapshot make_intent validate_common_fields
    valid_fingerprint lifecycle_fingerprint canonical_lifecycle_payload valid_intent_version
    command_for_intent make_materialise_command model_validate valid_text same_intent with_phase
    update_claim append_terminal append encode_intent
recovers = refl

finalize_completed-IsExclusive_example : IsExclusive finished.claims
unfolding IsExclusive
finalize_completed-IsExclusive_example =
    finalize_completed-IsExclusive platform completion admitted (refl, λ e. refl, tt) finalizes

finalize_completed-again_example :
    finalize_completed platform completion finished
    ≡ ok (completed_claim completed_intent materialised_notes, finished)
finalize_completed-again_example =
    finalize_completed-again platform strips completion admitted finalizes

finalize_recovery_required-IsExclusive_example : IsExclusive recovered.claims
unfolding IsExclusive
finalize_recovery_required-IsExclusive_example =
    finalize_recovery_required-IsExclusive platform request_intent 3 admitted (refl, λ e. refl, tt)
      recovers
