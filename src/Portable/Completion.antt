-- ===== src/Portable/Completion.antt =====
-- Receipts, tombstones and completed claims of registry_authority.py, and what
-- `finalize_operational` and `finalize_purge` of the unit of work complete a claim with.
use aipcs_mcp.Prelude.{
  leb, same, ◌==◌, is_none, Text, Text-discrete, ℕ, ◌+◌, Bool, true, false, not, ◌&&◌, Option, none,
  some,
}
use aipcs_mcp.Platform.{Platform}
use aipcs_mcp.Lifecycle.{
  max_service_revision, max_principal_length, max_created_via_length, valid_text, valid_fingerprint,
}
use aipcs_mcp.Registry.{namespace_of, Service, StorageBackend, OperationalStatus}
use aipcs_mcp.Operational.{
  OperationalStatus-discrete, OperationalLifecyclePhase, OperationalLifecycleIntent,
}
use aipcs_mcp.Portable.Command.{
  ImportIdentity, PurgeAuthority, PortableOperationKind, PurgeAuthorityKind, verified_receipt,
  explicit_override,
}
use aipcs_mcp.Portable.Intent.{PortableIntent}

pub data ReceiptVerification : Type 0 where
  unverified verified : ReceiptVerification

pub data ReceiptKind : Type 0 where
  export import : ReceiptKind

-- The time is a UTC instant.
pub record TransferReceipt : Type 0 where
  pub receipt_id : ℕ
  pub kind : ReceiptKind
  pub principal_id : Text
  pub service_id : ℕ
  pub bundle_root_sha256 : Text
  pub export_format_version : ℕ
  pub storage_backend : StorageBackend
  pub service_revision : ℕ
  pub operational_status : OperationalStatus
  pub verification : ReceiptVerification
  pub created_at : ℕ

pub record PurgeTombstone : Type 0 where
  pub principal_id : Text
  pub service_id : ℕ
  pub logical_namespace : Text
  pub created_via : Text
  pub purged_at : ℕ
  pub authority : PurgeAuthority
  pub receipt_id : Option ℕ

-- `TransferReceipt.__post_init__`
unfoldable pub valid_receipt : TransferReceipt → Bool
unfolding valid_text valid_fingerprint
valid_receipt r =
    not (r.receipt_id == 0)
    && valid_text r.principal_id max_principal_length
    && not (r.service_id == 0)
    && valid_fingerprint r.bundle_root_sha256
    && r.export_format_version == 1
    && leb 1 r.service_revision
    && leb r.service_revision max_service_revision

abbrev pub same_receipt : Option ℕ → Option ℕ → Bool
same_receipt none none = true
same_receipt (some a) (some b) = a == b
same_receipt _ _ = false

abbrev pub tombstone_receipt : PurgeAuthorityKind → Option ℕ → Option ℕ → Bool
tombstone_receipt verified_receipt receipt own = same_receipt receipt own
tombstone_receipt explicit_override receipt own = is_none receipt

-- `PurgeTombstone.__post_init__`
unfoldable pub valid_tombstone : Platform → PurgeTombstone → Bool
unfolding valid_text namespace_of Text-discrete
valid_tombstone p t =
    valid_text t.principal_id max_principal_length
    && not (t.service_id == 0)
    && same Text-discrete t.logical_namespace (namespace_of p t.service_id)
    && valid_text t.created_via max_created_via_length
    && tombstone_receipt t.authority.kind t.receipt_id t.authority.receipt_id

pub data RegistryResult : Type 0 where
  service_result : Service → RegistryResult
  receipt_result : TransferReceipt → RegistryResult
  tombstone_result : PurgeTombstone → RegistryResult

abbrev pub is_completed_phase : OperationalLifecyclePhase → Bool
is_completed_phase OperationalLifecyclePhase.completed = true
is_completed_phase _ = false

abbrev pub is_verified_export : TransferReceipt → Bool
is_verified_export r = elim r.kind [
  | ReceiptKind.import ↦ false
  | ReceiptKind.export ↦ elim r.verification [ unverified ↦ false | verified ↦ true ]
]

abbrev pub is_revision_of : Option ℕ → ℕ → Bool
is_revision_of none v = false
is_revision_of (some r) v = v == r

abbrev pub is_imported : PortableIntent → Service → Option ImportIdentity → Bool
is_imported i s none = false
is_imported i s (some x) =
    same Text-discrete s.principal_id x.principal_id
    && s.service_id == x.service_id
    && same Text-discrete s.domain_name x.domain_name
    && elim s.storage [
      | none ↦ true
      | some storage ↦ same Text-discrete storage.namespace x.logical_namespace
    ]

-- `_validate_service_result`
unfoldable pub valid_service_result : OperationalLifecycleIntent → RegistryResult → Bool
unfolding Text-discrete OperationalStatus-discrete
valid_service_result i (service_result s) =
    same Text-discrete s.principal_id i.fields.principal_id
    && s.service_id == i.fields.service_id
    && s.service_revision == i.fields.expected_service_revision + 1
    && same OperationalStatus-discrete s.operational_status i.target_operational_status
valid_service_result i _ = false

-- The tests of `CompletedRegistryClaim.__post_init__` on a portable result, by the kind.
unfoldable pub valid_portable_result :
    PortableOperationKind → PortableIntent → RegistryResult → Bool
unfolding Text-discrete
valid_portable_result PortableOperationKind.export i (receipt_result r) =
    is_verified_export r
    && same Text-discrete r.principal_id i.principal_id
    && r.service_id == i.service_id
    && is_revision_of i.expected_service_revision r.service_revision
valid_portable_result PortableOperationKind.import i (service_result s) = is_imported i s i.identity
valid_portable_result PortableOperationKind.purge i (tombstone_result t) =
    same Text-discrete t.principal_id i.principal_id && t.service_id == i.service_id
valid_portable_result _ i _ = false

-- `CompletedRegistryClaim` accepts the intent with the result.
unfoldable pub completes_operational : OperationalLifecycleIntent → RegistryResult → Bool
unfolding valid_service_result
completes_operational i r = is_completed_phase i.phase && valid_service_result i r

unfoldable pub completes_portable : PortableIntent → RegistryResult → Bool
unfolding valid_portable_result
completes_portable i r = is_completed_phase i.phase && valid_portable_result i.kind i r

-- The service that `finalize_operational` saves.
unfoldable pub operational_service : Service → OperationalStatus → ℕ → Service
operational_service s target at = record s {
  operational_status = target;
  updated_at = at;
  last_activity_at = at;
  service_revision = s.service_revision + 1;
}

-- The tombstone that `finalize_purge` writes.
unfoldable pub tombstone_of :
    Platform → PortableIntent → PurgeAuthority → Service → ℕ → PurgeTombstone
unfolding namespace_of
tombstone_of p i authority s at = record {
  principal_id = s.principal_id;
  service_id = s.service_id;
  logical_namespace = namespace_of p s.service_id;
  created_via = i.created_via;
  purged_at = at;
  authority = authority;
  receipt_id = authority.receipt_id;
}
