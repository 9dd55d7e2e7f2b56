-- ===== src/Registry/Claims.antt =====
-- The outcomes of the lifecycle operations, and how a stored claim is read.
use aipcs_mcp.Prelude.{
  if◌then◌else◌, same, ◌==◌, is_none, Text, Text-discrete, ◌>>=◌, ◌>>◌, ok, err, ℕ, ◌+◌, Bool, true,
  false, not, ◌&&◌, Option, none, some, ℕ_discrete,
}
use aipcs_mcp.Manifest.{ManifestV2, manifest_eq}
use aipcs_mcp.Platform.{Platform, LifecycleKind, materialise, evolve}
use aipcs_mcp.Lifecycle.{
  Checked, LifecyclePhase-discrete, LifecyclePhase, kind_of, manifest_snapshot, CommandFields,
  LifecycleCommand, make_intent, LifecycleIntent,
}
use aipcs_mcp.Registry.Services.{is_active, is_seeded, valid_service, Service}
use aipcs_mcp.Registry.Tables.{
  Stored, OperationKind-discrete, IntentDocument, ClaimRow, migration_error, OperationKind,
  lifecycle, ClaimPhase, at_phase, tombstoned,
}

pub data LifecycleRegistryOutcome : Type 0 where
  conflict_claim stale_revision_outcome unsupported_transition_outcome : LifecycleRegistryOutcome
  operation_in_progress_outcome : LifecycleRegistryOutcome
  completed_claim : LifecycleIntent → Service → LifecycleRegistryOutcome
  prepared_claim : LifecycleIntent → LifecycleRegistryOutcome
  recovery_required_claim : LifecycleIntent → LifecycleRegistryOutcome

-- A `LifecycleContractError` inside a repository method.
abbrev pub bounded : {A : Type 0} → Checked A → Stored A
bounded (ok a) = ok a
bounded (err e) = err migration_error

-- `if not b: raise ValueError`
abbrev pub demand : Bool → Stored (Unit {0})
demand true = ok tt
demand false = err migration_error

abbrev pub is_some_eq : {A : Type 0} → Discrete A → Option A → A → Bool
is_some_eq d none a = false
is_some_eq d (some b) a = same d b a

abbrev pub manifest_is : Option ManifestV2 → ManifestV2 → Bool
manifest_is none m = false
manifest_is (some n) m = manifest_eq n m

abbrev terminal_kind_ok : LifecycleKind → Service → Bool
terminal_kind_ok materialise s =
    is_some_eq ℕ_discrete s.schema_version 1
    && is_some_eq ℕ_discrete s.materialised_at s.updated_at
    && not (is_none s.storage)
terminal_kind_ok evolve s = not (is_none s.materialised_at) && not (is_none s.storage)

-- `_validate_terminal_service`
unfoldable pub valid_terminal_service : LifecycleIntent → Service → Bool
unfolding manifest_eq Text-discrete
valid_terminal_service i s =
    same Text-discrete s.principal_id i.principal_id
    && s.service_id == i.service_id
    && s.service_revision == i.expected_service_revision + 1
    && manifest_is s.manifest i.target_manifest
    && is_some_eq ℕ_discrete s.schema_version i.target_manifest.schema_version
    && not (is_seeded s.design_state)
    && is_active s.operational_status
    && s.updated_at == s.last_activity_at
    && terminal_kind_ok i.kind s

-- `CompletedLifecycleClaim(intent, service)`
unfoldable pub complete_claim : LifecycleIntent → Service → Stored LifecycleRegistryOutcome
unfolding valid_terminal_service
complete_claim i s = do
  demand (same LifecyclePhase-discrete i.phase LifecyclePhase.completed)
  demand (valid_terminal_service i s)
  ok (completed_claim i s)

-- `_encode_legacy_lifecycle_intent`
unfoldable pub encode_intent : LifecycleIntent → IntentDocument
encode_intent i = record {
  kind = i.kind;
  principal = i.principal_id;
  created_via = i.created_via;
  service_id = i.service_id;
  expected_service_revision = i.expected_service_revision;
  expected_schema_version = i.expected_schema_version;
  target_manifest = i.target_manifest;
}

abbrev pub document_fields : IntentDocument → Text → CommandFields
document_fields d key = record {
  principal_id = d.principal;
  created_via = d.created_via;
  service_id = d.service_id;
  expected_service_revision = d.expected_service_revision;
  expected_schema_version = d.expected_schema_version;
  idempotency_key = key;
}

abbrev pub is_lifecycle : OperationKind → Bool
is_lifecycle (lifecycle k) = true
is_lifecycle _ = false

abbrev pub decode_at :
    Platform → ClaimRow → ClaimPhase → Option IntentDocument → Stored LifecycleIntent
decode_at p row tombstoned document = err migration_error
decode_at p row (at_phase phase) none = err migration_error
decode_at p row (at_phase phase) (some d) = do
  target ← bounded (manifest_snapshot p d.target_manifest)
  intent ←
      bounded
        (make_intent p d.kind phase (document_fields d row.idempotency_key) row.fingerprint target)
  demand (
      same Text-discrete intent.principal_id row.principal_id
      && intent.service_id == row.service_id
      && same OperationKind-discrete (lifecycle intent.kind) row.operation_kind)
  ok intent

-- `_decode_legacy_lifecycle_intent`
unfoldable pub decode_intent : Platform → ClaimRow → Stored LifecycleIntent
unfolding Text-discrete OperationKind-discrete
decode_intent p row = do
  demand (is_lifecycle row.operation_kind)
  decode_at p row row.phase row.intent

abbrev decode_result_of : Platform → Option Service → Text → ℕ → Stored Service
decode_result_of p none principal service = err migration_error
decode_result_of p (some s) principal service =
    if valid_service p s && same Text-discrete s.principal_id principal && s.service_id == service
    then ok s
    else err migration_error

-- `decode_result`
unfoldable pub decode_result : Platform → ClaimRow → Text → ℕ → Stored Service
unfolding Text-discrete
decode_result p row = decode_result_of p row.result

abbrev claim_in_phase :
    Platform → ClaimRow → LifecycleIntent → LifecyclePhase → Stored LifecycleRegistryOutcome
claim_in_phase p row i LifecyclePhase.prepared = ok (prepared_claim i)
claim_in_phase p row i LifecyclePhase.recovery_required = ok (recovery_required_claim i)
claim_in_phase p row i LifecyclePhase.completed = do
  s ← decode_result p row i.principal_id i.service_id
  complete_claim i s

-- The reading of a claim by its phase, which two operations share.
unfoldable pub claim_outcome :
    Platform → ClaimRow → LifecycleIntent → Stored LifecycleRegistryOutcome
unfolding decode_result complete_claim
claim_outcome p row i = claim_in_phase p row i i.phase

-- `_existing_lifecycle_claim`
unfoldable pub existing_lifecycle_claim :
    Platform → ClaimRow → LifecycleCommand → Text → Stored LifecycleRegistryOutcome
unfolding Text-discrete OperationKind-discrete
existing_lifecycle_claim p row command fingerprint =
    if same Text-discrete row.fingerprint fingerprint
      && same OperationKind-discrete row.operation_kind (lifecycle (kind_of command))
    then (do i ← decode_intent p row; claim_outcome p row i)
    else ok conflict_claim
