-- ===== src/Tests/Operations.antt =====
-- The theorems on operational and portable commands, at concrete inputs.
use aipcs_mcp.Prelude.{Text, codes, ok, err, ℕ, ◌≡◌, refl, ◌≢◌, ◌↔◌, true, none, ◌∷◌, ◌++◌, arith}
use aipcs_mcp.Samples.{repeated, platform, seeded_notes}
use aipcs_mcp.Manifest.{identifier}
use aipcs_mcp.Lifecycle.{valid_text, valid_fingerprint}
use aipcs_mcp.Registry.{Service, StorageBackend, DesignState, OperationalStatus}
use aipcs_mcp.Operational.{
  make_operational_command, transition_target_status, OperationalFields,
  OperationalLifecycleCommand, OperationalPayload, OperationalLifecycleKind,
  OperationalLifecyclePhase, phase_refused, is_terminal_phase, with_operational_phase,
  prepare_operational_intent,
}
use aipcs_mcp.Operational.Matrix.{transition_target_status-iff-Step, Step}
use aipcs_mcp.Operational.Prepared.{intent_in, prepare_operational_intent_lem, IsDigest}
use aipcs_mcp.Portable.{
  matches_namespace, validate_sha256, validate_common, validate_import_identity,
  validate_purge_authority, validate_import, make_portable_command, portable_payload,
  PurgeAuthority, PortablePayload, PortableOperationKind, PurgeAuthorityKind, phase_rejected,
  PortableCommand, export_command, import_command, purge_command, portable_command_for_intent,
  portable_fingerprint, with_portable_phase, intent_of_command, portable_intent, valid_tombstone,
  completes_operational, completes_portable, operational_service, tombstone_of, service_result,
  tombstone_result,
}
use aipcs_mcp.Portable.Completed.{
  operational_service-completes_operational, tombstone_of-completes_portable,
}
use aipcs_mcp.Portable.Prepared.{portable_intent_lem}
use aipcs_mcp.Portable.Fingerprints.{under_key, portable_fingerprint-iff-under_key, IsCollisionFree}

abbrev fields : OperationalFields
fields = record {
  principal_id = codes "alice";
  created_via = codes "mcp";
  service_id = 7;
  expected_service_revision = 2;
  idempotency_key = codes "k2";
}

abbrev archive_notes : OperationalLifecycleCommand
archive_notes = record { kind = OperationalLifecycleKind.archive; fields = fields }

transition_target_status-iff-Step_example :
    (transition_target_status archive_notes DesignState.materialised OperationalStatus.suspended
      ≡ ok OperationalStatus.archived)
    ↔ Step archive_notes.kind OperationalStatus.suspended OperationalStatus.archived
transition_target_status-iff-Step_example =
    transition_target_status-iff-Step archive_notes DesignState.materialised
      OperationalStatus.suspended OperationalStatus.archived

abbrev kind_digit : OperationalLifecycleKind → ℕ
kind_digit OperationalLifecycleKind.suspend = b'0'
kind_digit OperationalLifecycleKind.resume = b'1'
kind_digit OperationalLifecycleKind.archive = b'2'
kind_digit OperationalLifecycleKind.restore = b'3'

-- A digest of 64 digits that shows the kind.
abbrev kind_digest : OperationalPayload → Text
kind_digest x = kind_digit x.kind ∷ repeated 63 b'0'

kind_is_digit :
    (k : OperationalLifecycleKind) → valid_fingerprint (kind_digit k ∷ repeated 63 b'0') ≡ true
unfolding valid_fingerprint
kind_is_digit OperationalLifecycleKind.suspend = refl
kind_is_digit OperationalLifecycleKind.resume = refl
kind_is_digit OperationalLifecycleKind.archive = refl
kind_is_digit OperationalLifecycleKind.restore = refl

kind_digest-IsDigest : IsDigest kind_digest
kind_digest-IsDigest = record { hexadecimal = λ x. kind_is_digit x.kind }

archives : make_operational_command archive_notes.kind archive_notes.fields ≡ ok archive_notes
unfolding make_operational_command valid_text
archives = refl

abbrev import_notes : PortableCommand
import_notes = import_command (record {
  principal_id = codes "alice";
  created_via = codes "mcp";
  identity = record {
    principal_id = codes "alice";
    service_id = 7;
    domain_name = codes "notes";
    logical_namespace = codes "svc_" ++ platform.uuid_hex 7;
  };
  destination_backend = StorageBackend.sqlite;
  bundle_root_sha256 = repeated 64 b'a';
  idempotency_key = codes "k3";
})

imports : make_portable_command platform import_notes ≡ ok import_notes
unfolding make_portable_command valid_text validate_import_identity validate_import identifier
    matches_namespace validate_sha256 valid_fingerprint
imports = refl

prepare_operational_intent_lem_example :
    let intent = intent_in kind_digest archive_notes in
    (prepare_operational_intent kind_digest archive_notes
      ≡ ok (intent OperationalLifecyclePhase.prepared))
    × ((phase : OperationalLifecyclePhase)
        → is_terminal_phase phase ≡ true
        → (with_operational_phase kind_digest (intent OperationalLifecyclePhase.prepared) phase
            ≡ ok (intent phase))
          × ((next : OperationalLifecyclePhase)
              → with_operational_phase kind_digest (intent phase) next ≡ err phase_refused))
prepare_operational_intent_lem_example =
    prepare_operational_intent_lem kind_digest archive_notes kind_digest-IsDigest archives

abbrev operation_digit : PortableOperationKind → ℕ
operation_digit PortableOperationKind.export = b'0'
operation_digit PortableOperationKind.import = b'1'
operation_digit PortableOperationKind.purge = b'2'

abbrev operation_digest : PortablePayload → Text
operation_digest x = operation_digit x.kind ∷ repeated 63 b'0'

operation_is_digit :
    (k : PortableOperationKind) → valid_fingerprint (operation_digit k ∷ repeated 63 b'0') ≡ true
unfolding valid_fingerprint
operation_is_digit PortableOperationKind.export = refl
operation_is_digit PortableOperationKind.import = refl
operation_is_digit PortableOperationKind.purge = refl

operation_digest-IsDigest : IsDigest operation_digest
operation_digest-IsDigest = record { hexadecimal = λ x. operation_is_digit x.kind }

portable_intent_lem_example :
    let intent = intent_of_command platform operation_digest in
    (portable_intent platform operation_digest import_notes
      ≡ ok (intent OperationalLifecyclePhase.prepared import_notes))
    × (portable_command_for_intent platform (intent OperationalLifecyclePhase.prepared import_notes)
        ≡ ok import_notes)
    × ((phase : OperationalLifecyclePhase)
        → is_terminal_phase phase ≡ true
        → (with_portable_phase platform operation_digest
              (intent OperationalLifecyclePhase.prepared import_notes)
              phase
            ≡ ok (intent phase import_notes))
          × ((next : OperationalLifecyclePhase)
              → with_portable_phase platform operation_digest (intent phase import_notes) next
                ≡ err phase_rejected))
portable_intent_lem_example =
    portable_intent_lem platform operation_digest operation_digest-IsDigest import_notes imports

abbrev export_notes : PortableCommand
export_notes = export_command fields

collision_free :
    IsCollisionFree operation_digest (portable_payload import_notes) (portable_payload export_notes)
unfolding portable_payload
collision_free = record { injective = λ h. absurd (ground arith) }

portable_fingerprint-iff-under_key_example :
    (portable_fingerprint platform operation_digest import_notes
      ≡ portable_fingerprint platform operation_digest export_notes)
    ↔ (import_notes ≡ under_key (codes "k3") export_notes)
portable_fingerprint-iff-under_key_example =
    portable_fingerprint-iff-under_key platform operation_digest import_notes export_notes
      collision_free refl tt

abbrev revised_notes : Service
revised_notes = record seeded_notes { service_revision = 2 }

archives_from_active :
    transition_target_status archive_notes DesignState.seeded OperationalStatus.active
    ≡ ok OperationalStatus.archived
unfolding transition_target_status
archives_from_active = refl

operational_service-completes_operational_example :
    (completes_operational
        (intent_in kind_digest archive_notes OperationalLifecyclePhase.completed)
        (service_result (operational_service revised_notes OperationalStatus.archived 5))
      ≡ true)
    × (OperationalStatus.archived ≢ OperationalStatus.active)
operational_service-completes_operational_example =
    operational_service-completes_operational kind_digest archive_notes revised_notes
      OperationalStatus.archived 5 refl refl refl archives_from_active

abbrev override : PurgeAuthority
override = record { kind = PurgeAuthorityKind.explicit_override; receipt_id = none }

purges :
    make_portable_command platform (purge_command fields override)
    ≡ ok (purge_command fields override)
unfolding make_portable_command valid_text validate_purge_authority validate_common
purges = refl

tombstone_of-completes_portable_example :
    let i =
      intent_of_command platform operation_digest OperationalLifecyclePhase.completed
        (purge_command fields override) in
    let t = tombstone_of platform i override revised_notes 6 in
    (valid_tombstone platform t ≡ true) × (completes_portable i (tombstone_result t) ≡ true)
tombstone_of-completes_portable_example =
    tombstone_of-completes_portable platform operation_digest fields override revised_notes 6 purges
      refl refl
