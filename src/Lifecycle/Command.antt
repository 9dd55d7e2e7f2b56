-- ===== src/Lifecycle/Command.antt =====
-- The two requests, their validation and their fingerprint.
use aipcs_mcp.Prelude.{
  leb, ◌==◌, length, Text, is_stripped, is_empty, ◌>>=◌, ◌>>◌, reject, ok, err, ℕ, ◌+◌, Bool, not,
  ◌&&◌, Option, none, some, ℕ_discrete,
}
use aipcs_mcp.Manifest.{ManifestV2, model_validate}
use aipcs_mcp.Platform.{Payload, Platform, LifecycleKind, materialise, evolve}
use aipcs_mcp.Lifecycle.Vocabulary.{
  max_service_revision, max_schema_version, max_principal_length, max_created_via_length,
  max_idempotency_key_length, Checked, principal_invalid, created_via_invalid, service_id_invalid,
  revision_invalid, schema_version_invalid, key_invalid, manifest_invalid, materialise_version,
  evolve_version_bound, evolve_version_step,
}

-- The fields that both dataclasses have. A service id is the number of its UUID.
pub record CommandFields : Type 0 where
  pub principal_id : Text
  pub created_via : Text
  pub service_id : ℕ
  pub expected_service_revision : ℕ
  pub expected_schema_version : ℕ
  pub idempotency_key : Text

unfoldable pub CommandFields-discrete : Discrete CommandFields
unfolding ℕ_discrete
CommandFields-discrete = hlevel ℕ_discrete

-- `EvolveCommand` keeps its target as canonical JSON; the model keeps the manifest that it says.
pub data LifecycleCommand : Type 0 where
  materialise_command : CommandFields → LifecycleCommand
  evolve_command : CommandFields → ManifestV2 → LifecycleCommand

abbrev pub kind_of : LifecycleCommand → LifecycleKind
kind_of (materialise_command c) = materialise
kind_of (evolve_command c target) = evolve

abbrev pub fields_of : LifecycleCommand → CommandFields
fields_of (materialise_command c) = c
fields_of (evolve_command c target) = c

-- `_valid_text`
unfoldable pub valid_text : Text → ℕ → Bool
valid_text value maximum = not (is_empty value) && is_stripped value && leb (length value) maximum

-- `_validate_common_fields`
unfoldable pub validate_common_fields : CommandFields → Checked (Unit {0})
validate_common_fields c = do
  reject (not (valid_text c.principal_id max_principal_length)) principal_invalid
  reject (not (valid_text c.created_via max_created_via_length)) created_via_invalid
  reject (c.service_id == 0) service_id_invalid
  reject
      (not
        (leb 1 c.expected_service_revision && leb c.expected_service_revision max_service_revision))
      revision_invalid
  reject (not (leb 1 c.expected_schema_version && leb c.expected_schema_version max_schema_version))
      schema_version_invalid
  reject (not (valid_text c.idempotency_key max_idempotency_key_length)) key_invalid

-- `MaterialiseCommand.__post_init__`
unfoldable pub make_materialise_command : CommandFields → Checked LifecycleCommand
make_materialise_command c = do
  validate_common_fields c
  reject (not (c.expected_schema_version == 1)) materialise_version
  ok (materialise_command c)

module _ (p : Platform) where
  -- `_manifest_snapshot`
  unfoldable pub manifest_snapshot : ManifestV2 → Checked ManifestV2
  manifest_snapshot m = elim (model_validate p.strip m) [
    | none ↦ err manifest_invalid
    | some snapshot ↦ ok snapshot
  ]

  -- `EvolveCommand.__init__`
  unfoldable pub make_evolve_command : CommandFields → ManifestV2 → Checked LifecycleCommand
  make_evolve_command c target = do
    validate_common_fields c
    reject (leb max_schema_version c.expected_schema_version) evolve_version_bound
    snapshot ← manifest_snapshot target
    reject (not (snapshot.schema_version == c.expected_schema_version + 1)) evolve_version_step
    ok (evolve_command c snapshot)

abbrev pub target_of : LifecycleCommand → Option ManifestV2
target_of (materialise_command c) = none
target_of (evolve_command c target) = some target

unfoldable pub canonical_lifecycle_payload : LifecycleCommand → Payload
canonical_lifecycle_payload command =
    let c = fields_of command in
    record {
      kind = kind_of command;
      principal = c.principal_id;
      created_via = c.created_via;
      service_id = c.service_id;
      expected_service_revision = c.expected_service_revision;
      expected_schema_version = c.expected_schema_version;
      target_manifest = target_of command;
    }

unfoldable pub lifecycle_fingerprint : Platform → LifecycleCommand → Text
lifecycle_fingerprint p command = p.digest (canonical_lifecycle_payload command)
