-- ===== src/Lifecycle/Intent.antt =====
-- `LifecycleIntent`, the evidence of one admitted request, and `prepare_intent`.
use aipcs_mcp.Prelude.{
  same, ◌==◌, length, all, Text, Text-discrete, ◌>>=◌, ◌>>◌, reject, ok, ℕ, ◌+◌, Bool, true, false,
  not, ◌&&◌, ◌||◌,
}
use aipcs_mcp.Manifest.{ManifestV2, manifest_eq}
use aipcs_mcp.Platform.{is_hex, Platform, LifecycleKind, materialise, evolve}
use aipcs_mcp.Lifecycle.Vocabulary.{
  Checked, LifecyclePhase, LifecycleContractError, fingerprint_invalid, materialise_version,
  evolve_version_step, materialise_target, evolve_target, fingerprint_mismatch, phase_not_monotonic,
}
use aipcs_mcp.Lifecycle.Command.{
  kind_of, fields_of, validate_common_fields, make_materialise_command, manifest_snapshot,
  make_evolve_command, lifecycle_fingerprint, CommandFields, LifecycleCommand, materialise_command,
  evolve_command,
}

pub record LifecycleIntent : Type 0 where
  pub kind : LifecycleKind
  pub phase : LifecyclePhase
  pub fields : CommandFields
  pub open fields use *
  pub fingerprint : Text
  pub target_manifest : ManifestV2

-- `_validate_fingerprint`
unfoldable pub valid_fingerprint : Text → Bool
valid_fingerprint value = length value == 64 && all is_hex value

-- The test on the schema versions, for each kind.
unfoldable pub valid_intent_version : LifecycleKind → ℕ → ℕ → Bool
valid_intent_version materialise expected target = expected == 1 && target == 1
valid_intent_version evolve expected target = target == expected + 1

abbrev pub version_error : LifecycleKind → LifecycleContractError
version_error materialise = materialise_version
version_error evolve = evolve_version_step

abbrev pub is_terminal : LifecyclePhase → Bool
is_terminal LifecyclePhase.prepared = false
is_terminal _ = true

-- The comparison of the target with the request.
abbrev pub check_target : LifecycleCommand → ManifestV2 → Checked (Unit {0})
check_target (materialise_command c) target =
    reject (not (target.schema_version == c.expected_schema_version)) materialise_target
check_target (evolve_command c requested) target =
    reject (not (manifest_eq target requested)) evolve_target

module _ (p : Platform) where
  -- `_command_for_intent`
  unfoldable pub command_for_intent :
      LifecycleKind → CommandFields → ManifestV2 → Checked LifecycleCommand
  command_for_intent materialise c target = make_materialise_command c
  command_for_intent evolve c target = make_evolve_command p c target

  -- `LifecycleIntent.__init__`
  unfoldable pub make_intent :
      LifecycleKind → LifecyclePhase → CommandFields → Text → ManifestV2 → Checked LifecycleIntent
  make_intent kind phase c fingerprint target_manifest = do
    validate_common_fields c
    reject (not (valid_fingerprint fingerprint)) fingerprint_invalid
    snapshot ← manifest_snapshot p target_manifest
    reject (not (valid_intent_version kind c.expected_schema_version snapshot.schema_version))
        (version_error kind)
    command ← command_for_intent kind c snapshot
    reject (not (same Text-discrete fingerprint (lifecycle_fingerprint p command)))
        fingerprint_mismatch
    ok (record {
      kind = kind;
      phase = phase;
      fields = c;
      fingerprint = fingerprint;
      target_manifest = snapshot;
    })

  -- `LifecycleIntent.with_phase`
  unfoldable pub with_phase : LifecycleIntent → LifecyclePhase → Checked LifecycleIntent
  with_phase intent phase = do
    reject (is_terminal intent.phase || not (is_terminal phase)) phase_not_monotonic
    make_intent intent.kind phase intent.fields intent.fingerprint intent.target_manifest

  unfoldable pub prepare_intent : LifecycleCommand → ManifestV2 → Checked LifecycleIntent
  prepare_intent command target_manifest = do
    target ← manifest_snapshot p target_manifest
    check_target command target
    make_intent (kind_of command) LifecyclePhase.prepared (fields_of command)
        (lifecycle_fingerprint p command) target
