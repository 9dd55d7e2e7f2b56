-- ===== src/Tests/Requests.antt =====
-- The theorems on manifests, requests and the registry, at concrete inputs.
use aipcs_mcp.Prelude.{codes, ok, ◌≡◌, refl, ◌≢◌, ◌↔◌, true, arith}
use aipcs_mcp.Samples.{
  notes, tagged_notes, no_strip, notes_compile, notes_transition, platform, strips, request,
  registry, request_intent, admitted, prepares, admits,
}
use aipcs_mcp.Manifest.{ManifestV2}
use aipcs_mcp.Relational.{
  valid_specification, detached_manifest, compile_manifest, history_is_one_entry_extension,
}
use aipcs_mcp.Relational.Acyclic.{HasRequiredCycle, compile_manifest-acyclic}
use aipcs_mcp.Relational.Transition.{classify_transition-IsTransition, IsTransition}
use aipcs_mcp.Platform.{NoCollision}
use aipcs_mcp.Lifecycle.{
  canonical_lifecycle_payload, lifecycle_fingerprint, LifecycleCommand, materialise_command,
}
use aipcs_mcp.Lifecycle.Fingerprints.{with_key, lifecycle_fingerprint-iff-with_key}
use aipcs_mcp.Registry.{
  insert_claim, conflict_claim, prepared_claim, prepared_row, resolve_or_admit,
}
use aipcs_mcp.Registry.Admitted.{IsAdmission}
use aipcs_mcp.Registry.Replay.{resolve_or_admit-again, other_request-conflicts}

classify_transition-IsTransition_example :
    let t = notes_transition.0 in
    (compile_manifest no_strip notes ≡ ok t.current)
    × (compile_manifest no_strip tagged_notes ≡ ok t.target)
    × IsTransition t
    × ((source : ManifestV2) × (destination : ManifestV2) × (detached_manifest no_strip notes
          ≡ ok source)
        × (detached_manifest no_strip tagged_notes ≡ ok destination)
        × (history_is_one_entry_extension source destination ≡ true))
classify_transition-IsTransition_example =
    classify_transition-IsTransition no_strip notes tagged_notes (notes_transition.1)

compile_manifest-acyclic_example :
    let s = notes_compile.0 in
    (valid_specification s ≡ true)
    × ((detached : ManifestV2) × (detached_manifest no_strip notes ≡ ok detached)
        × (detached.schema_version ≡ s.schema_version))
    × ¬ HasRequiredCycle s
compile_manifest-acyclic_example = compile_manifest-acyclic no_strip notes (notes_compile.1)

abbrev command : LifecycleCommand
command = materialise_command (request 7)

abbrev other_command : LifecycleCommand
other_command = materialise_command (request 8)

resolve_or_admit-again_example :
    resolve_or_admit platform admitted command ≡ ok (prepared_claim request_intent, admitted)
resolve_or_admit-again_example = resolve_or_admit-again platform strips registry command admits

no_collision :
    NoCollision platform
      (canonical_lifecycle_payload command)
      (canonical_lifecycle_payload other_command)
unfolding canonical_lifecycle_payload
no_collision = record { injective = λ h. absurd (ground arith) }

is_admission : IsAdmission platform registry command (prepared_claim request_intent, admitted)
unfolding insert_claim prepared_row canonical_lifecycle_payload
is_admission = record {
  intent = request_intent;
  target = notes;
  prepared_from = prepares;
  outcome = refl;
  inserted = refl;
}

distinct_commands : command ≢ other_command
distinct_commands e = absurd (ground arith)

other_request-conflicts_example :
    resolve_or_admit platform admitted other_command ≡ ok (conflict_claim, admitted)
other_request-conflicts_example =
    other_request-conflicts platform strips registry command other_command no_collision is_admission
      refl refl distinct_commands

lifecycle_fingerprint-iff-with_key_example :
    (lifecycle_fingerprint platform command ≡ lifecycle_fingerprint platform other_command)
    ↔ (command ≡ with_key (codes "k1") other_command)
lifecycle_fingerprint-iff-with_key_example =
    lifecycle_fingerprint-iff-with_key platform command other_command no_collision
