-- ===== src/Portable/Intent.antt =====
-- `PortableIntent`, over the digest of the sorted compact JSON of a payload.
use aipcs_mcp.Prelude.{
  same, ◌==◌, is_none, Text, Text-discrete, ◌>>=◌, ◌>>◌, reject, ok, err, ℕ, Bool, false, not, ◌&&◌,
  Option, none, some,
}
use aipcs_mcp.Platform.{Platform}
use aipcs_mcp.Registry.{StorageBackend, export, import, purge}
use aipcs_mcp.Operational.{
  OperationalFields, OperationalLifecyclePhase, is_terminal_phase, is_prepared_phase,
}
use aipcs_mcp.Portable.Command.{
  Authority, validate_principal, validate_created_via, validate_idempotency_key,
  validate_service_id, validate_sha256, is_revision, make_portable_command, portable_payload,
  ImportIdentity, PurgeAuthority, PortablePayload, PortableOperationKind, export, import, purge,
  revision_rejected, digest_rejected, identity_rejected, import_shape_rejected,
  service_shape_rejected, purge_authority_rejected, export_with_authority, fingerprint_mismatched,
  phase_rejected, PortableCommand, export_command, import_command, purge_command,
}

pub record PortableIntent : Type 0 where
  pub kind : PortableOperationKind
  pub phase : OperationalLifecyclePhase
  pub principal_id : Text
  pub created_via : Text
  pub service_id : ℕ
  pub expected_service_revision : Option ℕ
  pub idempotency_key : Text
  pub fingerprint : Text
  pub identity : Option ImportIdentity
  pub bundle_root_sha256 : Option Text
  pub destination_backend : Option StorageBackend
  pub purge_authority : Option PurgeAuthority

abbrev is_own_identity : PortableIntent → Option ImportIdentity → Bool
is_own_identity i none = false
is_own_identity i (some x) =
    same Text-discrete x.principal_id i.principal_id && x.service_id == i.service_id

abbrev is_some_revision : Option ℕ → Bool
is_some_revision none = false
is_some_revision (some r) = is_revision r

abbrev validate_some_sha256 : Option Text → Authority (Unit {0})
validate_some_sha256 none = err digest_rejected
validate_some_sha256 (some s) = validate_sha256 s

abbrev authority_shape : PortableOperationKind → Option PurgeAuthority → Authority (Unit {0})
authority_shape purge a = reject (is_none a) purge_authority_rejected
authority_shape _ a = reject (not (is_none a)) export_with_authority

abbrev service_shape : PortableIntent → Authority (Unit {0})
service_shape i = do
  reject
      (not (
        is_some_revision i.expected_service_revision
        && is_none i.identity
        && is_none i.bundle_root_sha256
        && is_none i.destination_backend))
      service_shape_rejected
  authority_shape i.kind i.purge_authority

-- The tests of `PortableIntent.__post_init__` that depend on the kind.
unfoldable pub validate_shape : PortableOperationKind → PortableIntent → Authority (Unit {0})
unfolding Text-discrete validate_sha256
validate_shape import i = do
  reject
      (not (
        is_own_identity i i.identity
        && is_none i.expected_service_revision
        && is_none i.purge_authority
        && not (is_none i.bundle_root_sha256)
        && not (is_none i.destination_backend)))
      import_shape_rejected
  validate_some_sha256 i.bundle_root_sha256
validate_shape _ i = service_shape i

abbrev service_fields : PortableIntent → ℕ → OperationalFields
service_fields i r = record {
  principal_id = i.principal_id;
  created_via = i.created_via;
  service_id = i.service_id;
  expected_service_revision = r;
  idempotency_key = i.idempotency_key;
}

-- The arguments of the command, where the intent has them.
abbrev command_arguments :
    PortableOperationKind
    → PortableIntent
    → Option ℕ
    → Option ImportIdentity
    → Option StorageBackend
    → Option Text
    → Option PurgeAuthority
    → Authority PortableCommand
command_arguments export i (some r) x b s a = ok (export_command (service_fields i r))
command_arguments import i r (some x) (some b) (some s) a = ok (
    import_command (record {
      principal_id = i.principal_id;
      created_via = i.created_via;
      identity = x;
      destination_backend = b;
      bundle_root_sha256 = s;
      idempotency_key = i.idempotency_key;
    }))
command_arguments purge i (some r) x b s (some a) = ok (purge_command (service_fields i r) a)
command_arguments export i none x b s a = err revision_rejected
command_arguments import i r x b s a = err identity_rejected
command_arguments purge i none x b s a = err revision_rejected
command_arguments purge i (some r) x b s none = err purge_authority_rejected

-- `_command_for_intent`
unfoldable pub portable_command_for_intent : Platform → PortableIntent → Authority PortableCommand
unfolding make_portable_command
portable_command_for_intent p i = do
  command ←
      command_arguments i.kind i i.expected_service_revision i.identity i.destination_backend
        i.bundle_root_sha256 i.purge_authority
  make_portable_command p command

module _ (p : Platform) (digest : PortablePayload → Text) where
  unfoldable pub portable_fingerprint : PortableCommand → Text
  unfolding portable_payload
  portable_fingerprint command = digest (portable_payload command)

  -- `PortableIntent.__post_init__`
  unfoldable pub make_portable_intent : PortableIntent → Authority PortableIntent
  unfolding validate_principal validate_created_via validate_service_id validate_idempotency_key
      validate_sha256 validate_shape portable_command_for_intent portable_fingerprint Text-discrete
  make_portable_intent i = do
    validate_principal i.principal_id
    validate_created_via i.created_via
    validate_service_id i.service_id
    validate_idempotency_key i.idempotency_key
    validate_sha256 i.fingerprint
    validate_shape i.kind i
    command ← portable_command_for_intent p i
    reject (not (same Text-discrete i.fingerprint (portable_fingerprint command)))
        fingerprint_mismatched
    ok i

  -- `PortableIntent.with_phase`
  unfoldable pub with_portable_phase :
      PortableIntent → OperationalLifecyclePhase → Authority PortableIntent
  unfolding make_portable_intent
  with_portable_phase i phase = do
    reject (not (is_prepared_phase i.phase && is_terminal_phase phase)) phase_rejected
    make_portable_intent (record i { phase = phase })

  abbrev service_intent :
      PortableOperationKind
      → OperationalLifecyclePhase
      → OperationalFields
      → Option PurgeAuthority
      → Text
      → PortableIntent
  service_intent kind phase c a fingerprint = record {
    kind = kind;
    phase = phase;
    principal_id = c.principal_id;
    created_via = c.created_via;
    service_id = c.service_id;
    expected_service_revision = some c.expected_service_revision;
    idempotency_key = c.idempotency_key;
    fingerprint = fingerprint;
    identity = none;
    bundle_root_sha256 = none;
    destination_backend = none;
    purge_authority = a;
  }

  -- The arguments that `_portable_intent` gives to the constructor, in a phase.
  unfoldable pub intent_of_command : OperationalLifecyclePhase → PortableCommand → PortableIntent
  unfolding portable_fingerprint
  intent_of_command phase (export_command c) =
      service_intent export phase c none (portable_fingerprint (export_command c))
  intent_of_command phase (import_command c) = record {
    kind = import;
    phase = phase;
    principal_id = c.principal_id;
    created_via = c.created_via;
    service_id = c.identity.service_id;
    expected_service_revision = none;
    idempotency_key = c.idempotency_key;
    fingerprint = portable_fingerprint (import_command c);
    identity = some c.identity;
    bundle_root_sha256 = some c.bundle_root_sha256;
    destination_backend = some c.destination_backend;
    purge_authority = none;
  }
  intent_of_command phase (purge_command c a) =
      service_intent purge phase c (some a) (portable_fingerprint (purge_command c a))

  -- `_portable_intent`
  unfoldable pub portable_intent : PortableCommand → Authority PortableIntent
  unfolding make_portable_intent intent_of_command
  portable_intent command =
      make_portable_intent (intent_of_command OperationalLifecyclePhase.prepared command)
