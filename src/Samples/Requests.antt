-- ===== src/Samples/Requests.antt =====
-- A platform, a registry with one seeded service, and requests.
use aipcs_mcp.Prelude.{Text, codes, ok, ℕ, zero, suc, ◌+◌, ◌≡◌, refl, true, none, some, [], ◌∷◌}
use aipcs_mcp.Samples.Manifests.{notes, no_strip}
use aipcs_mcp.Manifest.{model_validate}
use aipcs_mcp.Platform.{Platform, IsStripping, LifecycleKind}
use aipcs_mcp.Lifecycle.{
  LifecyclePhase, valid_text, validate_common_fields, make_materialise_command, manifest_snapshot,
  canonical_lifecycle_payload, lifecycle_fingerprint, CommandFields, materialise_command,
  valid_fingerprint, valid_intent_version, command_for_intent, make_intent, prepare_intent,
  LifecycleIntent,
}
use aipcs_mcp.Relational.{compile_manifest}
use aipcs_mcp.Registry.{
  Service, DesignState, OperationalStatus, claim_row, blocker, stored_service, insert_claim,
  IdentityRow, Registry, prepared_claim, supported_lifecycle_state, prepared_row, is_relational,
  admit_target, admit_service, resolve_or_admit,
}

abbrev pub repeated : ℕ → ℕ → Text
repeated zero c = []
repeated (suc n) c = c ∷ repeated n c

-- A digest of 64 digits that shows one digit of the service.
abbrev pub platform : Platform
platform = record {
  strip = no_strip;
  digest = λ x. (b'0' + x.service_id) ∷ repeated 63 b'0';
  uuid_hex = λ n. (b'0' + n) ∷ repeated 31 b'0';
  printable = λ c. true;
}

pub strips : IsStripping platform
strips = record { strip_idem = λ s. refl }

abbrev pub request : ℕ → CommandFields
request service = record {
  principal_id = codes "alice";
  created_via = codes "mcp";
  service_id = service;
  expected_service_revision = 1;
  expected_schema_version = 1;
  idempotency_key = codes "k1";
}

abbrev pub seeded_notes : Service
seeded_notes = record {
  service_id = 7;
  principal_id = codes "alice";
  domain_name = codes "notes";
  domain_class = codes "notes";
  intent_description = codes "Notes";
  created_at = 1;
  updated_at = 2;
  last_activity_at = 2;
  manifest = some notes;
  schema_version = some 1;
  design_state = DesignState.seeded;
  operational_status = OperationalStatus.active;
  service_revision = 1;
  materialised_at = none;
  storage = none;
}

abbrev pub live_notes : IdentityRow
live_notes = record {
  service_id = 7;
  principal_id = codes "alice";
  domain_name = codes "notes";
  storage_backend = none;
  live = true;
}

abbrev pub registry : Registry
registry = record {
  services = seeded_notes ∷ [];
  claims = [];
  audits = [];
  identities = live_notes ∷ [];
}

abbrev pub request_intent : LifecycleIntent
request_intent = record {
  kind = LifecycleKind.materialise;
  phase = LifecyclePhase.prepared;
  fields = request 7;
  fingerprint = platform.digest (canonical_lifecycle_payload (materialise_command (request 7)));
  target_manifest = notes;
}

abbrev pub admitted : Registry
admitted = record registry { claims = prepared_row request_intent ∷ [] }

pub prepares : prepare_intent platform (materialise_command (request 7)) notes ≡ ok request_intent
unfolding prepare_intent manifest_snapshot make_intent validate_common_fields valid_fingerprint
    lifecycle_fingerprint canonical_lifecycle_payload valid_intent_version command_for_intent
    make_materialise_command model_validate valid_text
prepares = refl

pub admits :
    resolve_or_admit platform registry (materialise_command (request 7))
    ≡ ok (prepared_claim request_intent, admitted)
unfolding resolve_or_admit claim_row stored_service model_validate admit_service
    supported_lifecycle_state blocker admit_target is_relational compile_manifest prepare_intent
    manifest_snapshot make_intent validate_common_fields valid_fingerprint lifecycle_fingerprint
    canonical_lifecycle_payload valid_intent_version command_for_intent make_materialise_command
    valid_text insert_claim prepared_row
admits = refl
