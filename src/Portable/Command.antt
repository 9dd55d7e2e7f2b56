-- ===== src/Portable/Command.antt =====
-- The portable commands, their checks, and the payload that a fingerprint covers.
use aipcs_mcp.Prelude.{
  ltb, leb, same, ◌==◌, is_none, length, drop, all, Text, Text-discrete, codes, starts_with, ◌>>◌,
  reject, Result, ok, err, ℕ, Bool, not, ◌&&◌, Option, none, some,
}
use aipcs_mcp.Manifest.{identifier}
use aipcs_mcp.Platform.{is_hex, Platform}
use aipcs_mcp.Lifecycle.{
  max_service_revision, max_principal_length, max_created_via_length, max_idempotency_key_length,
  valid_text, valid_fingerprint,
}
use aipcs_mcp.Registry.{namespace_of, StorageBackend}
use aipcs_mcp.Operational.{OperationalFields}

pub data PortableOperationKind : Type 0 where
  export import purge : PortableOperationKind

pub data PurgeAuthorityKind : Type 0 where
  verified_receipt explicit_override : PurgeAuthorityKind

-- The messages of `RegistryAuthorityError`.
pub data RegistryAuthorityError : Type 0 where
  principal_rejected created_via_rejected service_id_rejected revision_rejected key_rejected
        digest_rejected domain_rejected namespace_rejected identity_rejected destination_rejected
        override_with_receipt import_shape_rejected service_shape_rejected purge_authority_rejected
        export_with_authority fingerprint_mismatched phase_rejected :
      RegistryAuthorityError

abbrev pub Authority : Type 0 → Type 0
Authority A = Result RegistryAuthorityError A

pub record ImportIdentity : Type 0 where
  pub principal_id : Text
  pub service_id : ℕ
  pub domain_name : Text
  pub logical_namespace : Text

pub record PurgeAuthority : Type 0 where
  pub kind : PurgeAuthorityKind
  pub receipt_id : Option ℕ

pub record ImportFields : Type 0 where
  pub principal_id : Text
  pub created_via : Text
  pub identity : ImportIdentity
  pub destination_backend : StorageBackend
  pub bundle_root_sha256 : Text
  pub idempotency_key : Text

-- The three classes. Export and purge have the fields of an operational command.
pub data PortableCommand : Type 0 where
  export_command : OperationalFields → PortableCommand
  import_command : ImportFields → PortableCommand
  purge_command : OperationalFields → PurgeAuthority → PortableCommand

-- `^svc_[0-9a-f]{32}$`
unfoldable pub matches_namespace : Text → Bool
matches_namespace n = starts_with n (codes "svc_") && length n == 36 && all is_hex (drop 4 n)

-- `_validate_principal`, `_validate_created_via`, `_validate_idempotency_key`,
-- `_validate_service_id`, `_validate_sha256`
unfoldable pub validate_principal : Text → Authority (Unit {0})
unfolding valid_text
validate_principal value = reject (not (valid_text value max_principal_length)) principal_rejected

unfoldable pub validate_created_via : Text → Authority (Unit {0})
unfolding valid_text
validate_created_via value =
    reject (not (valid_text value max_created_via_length)) created_via_rejected

unfoldable pub validate_idempotency_key : Text → Authority (Unit {0})
unfolding valid_text
validate_idempotency_key value =
    reject (not (valid_text value max_idempotency_key_length)) key_rejected

unfoldable pub validate_service_id : ℕ → Authority (Unit {0})
validate_service_id value = reject (value == 0) service_id_rejected

unfoldable pub validate_sha256 : Text → Authority (Unit {0})
unfolding valid_fingerprint
validate_sha256 value = reject (not (valid_fingerprint value)) digest_rejected

abbrev pub is_revision : ℕ → Bool
is_revision r = leb 1 r && ltb r max_service_revision

-- `_validate_common`
unfoldable pub validate_common : OperationalFields → Authority (Unit {0})
unfolding validate_principal validate_created_via validate_idempotency_key validate_service_id
validate_common c = do
  validate_principal c.principal_id
  validate_created_via c.created_via
  validate_service_id c.service_id
  reject (not (is_revision c.expected_service_revision)) revision_rejected
  validate_idempotency_key c.idempotency_key

-- `ImportIdentity.__post_init__`
unfoldable pub validate_import_identity : Platform → ImportIdentity → Authority (Unit {0})
unfolding validate_principal validate_service_id identifier matches_namespace Text-discrete
    namespace_of
validate_import_identity p i = do
  validate_principal i.principal_id
  validate_service_id i.service_id
  reject (not (identifier i.domain_name)) domain_rejected
  reject
      (not (
        matches_namespace i.logical_namespace
        && same Text-discrete i.logical_namespace (namespace_of p i.service_id)))
      namespace_rejected

abbrev pub authority_receipt : PurgeAuthorityKind → Option ℕ → Authority (Unit {0})
authority_receipt verified_receipt none = err service_id_rejected
authority_receipt verified_receipt (some r) = validate_service_id r
authority_receipt explicit_override r = reject (not (is_none r)) override_with_receipt

-- `PurgeAuthority.__post_init__`
unfoldable pub validate_purge_authority : PurgeAuthority → Authority (Unit {0})
unfolding validate_service_id
validate_purge_authority a = authority_receipt a.kind a.receipt_id

-- `ImportCommand.__post_init__`
unfoldable pub validate_import : ImportFields → Authority (Unit {0})
unfolding validate_principal validate_created_via validate_sha256 validate_idempotency_key
    Text-discrete
validate_import c = do
  validate_principal c.principal_id
  validate_created_via c.created_via
  reject (not (same Text-discrete c.identity.principal_id c.principal_id)) identity_rejected
  validate_sha256 c.bundle_root_sha256
  validate_idempotency_key c.idempotency_key

-- The constructors of the three classes, after those of their parts.
unfoldable pub make_portable_command : Platform → PortableCommand → Authority PortableCommand
unfolding validate_common validate_import_identity validate_import validate_purge_authority
make_portable_command p (export_command c) = do validate_common c; ok (export_command c)
make_portable_command p (import_command c) = do
  validate_import_identity p c.identity
  validate_import c
  ok (import_command c)
make_portable_command p (purge_command c a) = do
  validate_purge_authority a
  validate_common c
  ok (purge_command c a)

-- The object of `_canonical_portable_json`: an optional member is a key that it may lack.
pub record PortablePayload : Type 0 where
  pub kind : PortableOperationKind
  pub principal : Text
  pub created_via : Text
  pub service_id : ℕ
  pub domain_name : Option Text
  pub logical_namespace : Option Text
  pub destination_backend : Option StorageBackend
  pub bundle_root_sha256 : Option Text
  pub expected_service_revision : Option ℕ
  pub purge_authority : Option PurgeAuthorityKind
  pub receipt_id : Option ℕ

abbrev service_payload : PortableOperationKind → OperationalFields → PortablePayload
service_payload kind c = record {
  kind = kind;
  principal = c.principal_id;
  created_via = c.created_via;
  service_id = c.service_id;
  domain_name = none;
  logical_namespace = none;
  destination_backend = none;
  bundle_root_sha256 = none;
  expected_service_revision = some c.expected_service_revision;
  purge_authority = none;
  receipt_id = none;
}

-- `_canonical_portable_json`, before it is written
unfoldable pub portable_payload : PortableCommand → PortablePayload
portable_payload (export_command c) = service_payload export c
portable_payload (import_command c) = record {
  kind = import;
  principal = c.principal_id;
  created_via = c.created_via;
  service_id = c.identity.service_id;
  domain_name = some c.identity.domain_name;
  logical_namespace = some c.identity.logical_namespace;
  destination_backend = some c.destination_backend;
  bundle_root_sha256 = some c.bundle_root_sha256;
  expected_service_revision = none;
  purge_authority = none;
  receipt_id = none;
}
portable_payload (purge_command c a) = record (service_payload purge c) {
  purge_authority = some a.kind;
  receipt_id = a.receipt_id;
}
