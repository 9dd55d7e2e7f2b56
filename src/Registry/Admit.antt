-- ===== src/Registry/Admit.antt =====
-- `resolve_or_admit`: a key is resolved to its stored claim, or admitted as a prepared one.
use aipcs_mcp.Prelude.{
  leb, if◌then◌else◌, same, ◌==◌, is_none, ◌>>=◌, ok, err, Bool, true, false, not, ◌&&◌, Option,
  none, some, ℕ_discrete,
}
use aipcs_mcp.Manifest.{ManifestV2}
use aipcs_mcp.Platform.{Platform, LifecycleKind, materialise, evolve}
use aipcs_mcp.Lifecycle.{
  max_service_revision, LifecyclePhase-discrete, LifecyclePhase, kind_of, fields_of,
  lifecycle_fingerprint, LifecycleCommand, materialise_command, evolve_command, prepare_intent,
  LifecycleIntent,
}
use aipcs_mcp.Relational.{compile_manifest, classify_transition}
use aipcs_mcp.Registry.Services.{is_active, is_seeded, Service}
use aipcs_mcp.Registry.Tables.{
  Stored, claim_row, blocker, stored_service, insert_claim, ClaimRow, Registry, migration_error,
  lifecycle, at_phase,
}
use aipcs_mcp.Registry.Claims.{
  bounded, is_some_eq, encode_intent, is_lifecycle, decode_intent, existing_lifecycle_claim,
  LifecycleRegistryOutcome, stale_revision_outcome, unsupported_transition_outcome,
  operation_in_progress_outcome, prepared_claim, recovery_required_claim,
}

-- `_supported_lifecycle_state`
unfoldable pub supported_lifecycle_state : Service → LifecycleKind → Bool
supported_lifecycle_state s materialise =
    is_active s.operational_status
    && not (is_none s.manifest)
    && is_seeded s.design_state
    && is_some_eq ℕ_discrete s.schema_version 1
    && is_none s.materialised_at
    && is_none s.storage
supported_lifecycle_state s evolve =
    is_active s.operational_status
    && not (is_none s.manifest)
    && not (is_seeded s.design_state)
    && not (is_none s.materialised_at)
    && not (is_none s.storage)

abbrev pub Admission : Type 0
Admission = LifecycleRegistryOutcome × Registry

-- The row of a prepared claim, `_insert_prepared`.
unfoldable pub prepared_row : LifecycleIntent → ClaimRow
unfolding encode_intent
prepared_row i = record {
  principal_id = i.principal_id;
  idempotency_key = i.idempotency_key;
  fingerprint = i.fingerprint;
  service_id = i.service_id;
  operation_kind = lifecycle i.kind;
  phase = at_phase LifecyclePhase.prepared;
  intent = some (encode_intent i);
  result = none;
}

-- The relational support of the target: `compile_manifest` or `classify_transition`.
unfoldable pub is_relational : Platform → Service → LifecycleCommand → ManifestV2 → Bool
is_relational p s (materialise_command c) target = elim (compile_manifest p.strip target) [
  | ok x ↦ true
  | err e ↦ false
]
is_relational p s (evolve_command c requested) target = elim s.manifest [
  | none ↦ false
  | some m ↦ elim (classify_transition p.strip m target) [ ok x ↦ true | err e ↦ false ]
]

abbrev pub admission_target : Service → LifecycleCommand → Option ManifestV2
admission_target s (materialise_command c) = s.manifest
admission_target s (evolve_command c target) = some target

abbrev pub prepare_target :
    Platform → Registry → Service → LifecycleCommand → Option ManifestV2 → Stored Admission
prepare_target p r s command none = err migration_error
prepare_target p r s command (some target) =
    if is_relational p s command target
    then (do
      intent ← bounded (prepare_intent p command target)
      r' ← insert_claim (prepared_row intent) r
      ok (prepared_claim intent, r'))
    else ok (unsupported_transition_outcome, r)

-- The last part: the target is taken, checked and inserted.
unfoldable pub admit_target : Platform → Registry → Service → LifecycleCommand → Stored Admission
admit_target p r s command = prepare_target p r s command (admission_target s command)

-- What an active claim of another key means.
unfoldable pub blocked_outcome : Platform → ClaimRow → Stored LifecycleRegistryOutcome
blocked_outcome p row =
    if is_lifecycle row.operation_kind
    then (do
      i ← decode_intent p row
      ok (
          if same LifecyclePhase-discrete i.phase LifecyclePhase.recovery_required
          then recovery_required_claim i
          else operation_in_progress_outcome))
    else ok operation_in_progress_outcome

abbrev pub at_blocker :
    Platform → Registry → Service → LifecycleCommand → Option ClaimRow → Stored Admission
at_blocker p r s command none = admit_target p r s command
at_blocker p r s command (some row) = do outcome ← blocked_outcome p row; ok (outcome, r)

-- The tests on the service, in their order.
unfoldable pub admit_service :
    Platform → Registry → LifecycleCommand → Option Service → Stored Admission
admit_service p r command none = ok (stale_revision_outcome, r)
admit_service p r command (some s) =
    let c = fields_of command in
    if not (
      s.service_revision == c.expected_service_revision
      && is_some_eq ℕ_discrete s.schema_version c.expected_schema_version)
    then ok (stale_revision_outcome, r)
    else if not (supported_lifecycle_state s (kind_of command))
    then ok (unsupported_transition_outcome, r)
    else if leb max_service_revision s.service_revision
    then ok (unsupported_transition_outcome, r)
    else at_blocker p r s command (blocker r c.principal_id c.service_id)

abbrev pub at_claim : Platform → Registry → LifecycleCommand → Option ClaimRow → Stored Admission
at_claim p r command none = do
  let c = fields_of command
  service ← stored_service p r c.principal_id c.service_id
  admit_service p r command service
at_claim p r command (some row) = do
  outcome ← existing_lifecycle_claim p row command (lifecycle_fingerprint p command)
  ok (outcome, r)

unfoldable pub resolve_or_admit : Platform → Registry → LifecycleCommand → Stored Admission
resolve_or_admit p r command =
    at_claim p r command
      (claim_row r (fields_of command).principal_id (fields_of command).idempotency_key)
