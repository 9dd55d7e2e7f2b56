-- ===== src/Portable/Fingerprints.antt =====
-- What the fingerprint of a portable command covers.
use aipcs_mcp.Prelude.{Text, ℕ, ◌≡◌, refl, sym, ap, ◌∙◌, ◌↔◌, Option, none, some, []}
use aipcs_mcp.Platform.{Platform}
use aipcs_mcp.Registry.{StorageBackend, export, import, purge}
use aipcs_mcp.Operational.{OperationalFields}
use aipcs_mcp.Portable.Command.{
  portable_payload, PortablePayload, PortableOperationKind, export, import, purge,
  PurgeAuthorityKind, explicit_override, PortableCommand, export_command, import_command,
  purge_command,
}
use aipcs_mcp.Portable.Intent.{portable_fingerprint}

-- The digest does not map the two payloads to one text unless they are one payload.
pub record IsCollisionFree (digest : PortablePayload → Text) (x y : PortablePayload) : Type 0 where
  pub injective : digest x ≡ digest y → x ≡ y

abbrev pub key_of : PortableCommand → Text
key_of (export_command c) = c.idempotency_key
key_of (import_command c) = c.idempotency_key
key_of (purge_command c a) = c.idempotency_key

-- The same command under another idempotency key.
abbrev pub under_key : Text → PortableCommand → PortableCommand
under_key key (export_command c) = export_command (record c { idempotency_key = key })
under_key key (import_command c) = import_command (record c { idempotency_key = key })
under_key key (purge_command c a) = purge_command (record c { idempotency_key = key }) a

-- An import command names its own principal in the identity, as its constructor demands.
abbrev pub IsOwner : PortableCommand → Type 0
IsOwner (import_command c) = c.identity.principal_id ≡ c.principal_id
IsOwner _ = Unit

abbrev or_empty : Option Text → Text
or_empty none = []
or_empty (some s) = s

abbrev or_zero : Option ℕ → ℕ
or_zero none = 0
or_zero (some n) = n

abbrev or_sqlite : Option StorageBackend → StorageBackend
or_sqlite none = StorageBackend.sqlite
or_sqlite (some b) = b

abbrev or_override : Option PurgeAuthorityKind → PurgeAuthorityKind
or_override none = explicit_override
or_override (some k) = k

abbrev fields_under : Text → PortablePayload → OperationalFields
fields_under key x = record {
  principal_id = x.principal;
  created_via = x.created_via;
  service_id = x.service_id;
  expected_service_revision = or_zero x.expected_service_revision;
  idempotency_key = key;
}

-- The command of a key that has a payload.
abbrev command_of : Text → PortablePayload → PortableOperationKind → PortableCommand
command_of key x export = export_command (fields_under key x)
command_of key x import = import_command (record {
  principal_id = x.principal;
  created_via = x.created_via;
  identity = record {
    principal_id = x.principal;
    service_id = x.service_id;
    domain_name = or_empty x.domain_name;
    logical_namespace = or_empty x.logical_namespace;
  };
  destination_backend = or_sqlite x.destination_backend;
  bundle_root_sha256 = or_empty x.bundle_root_sha256;
  idempotency_key = key;
})
command_of key x purge =
    purge_command (fields_under key x)
      (record { kind = or_override x.purge_authority; receipt_id = x.receipt_id })

command_of-payload :
    (key : Text) (b : PortableCommand)
    → IsOwner b
    → (let x = portable_payload b in command_of key x x.kind) ≡ under_key key b
unfolding portable_payload
command_of-payload key (export_command c) o = refl
command_of-payload key (import_command c) o = rw o refl
command_of-payload key (purge_command c a) o = refl

under_key_self : (a : PortableCommand) → under_key (key_of a) a ≡ a
under_key_self (export_command c) = refl
under_key_self (import_command c) = refl
under_key_self (purge_command c a) = refl

payload-under_key :
    (key : Text) (b : PortableCommand) → portable_payload (under_key key b) ≡ portable_payload b
unfolding portable_payload
payload-under_key key (export_command c) = refl
payload-under_key key (import_command c) = refl
payload-under_key key (purge_command c a) = refl

-- If the digest does not map two different payloads of the commands to one text, and an import
-- command names its own principal in the identity, two commands have one fingerprint exactly when
-- they are the same but for the idempotency key.
pub portable_fingerprint-iff-under_key :
    (p : Platform) (digest : PortablePayload → Text) (a b : PortableCommand)
    → IsCollisionFree digest (portable_payload a) (portable_payload b)
    → IsOwner a
    → IsOwner b
    → (portable_fingerprint p digest a ≡ portable_fingerprint p digest b)
      ↔ (a ≡ under_key (key_of a) b)
unfolding portable_fingerprint
portable_fingerprint-iff-under_key p digest a b free oa ob = (
  λ h.
      sym (under_key_self a)
      ∙ sym (command_of-payload (key_of a) a oa)
      ∙ ap (λ (x : PortablePayload). command_of (key_of a) x x.kind) (free.injective h)
      ∙ command_of-payload (key_of a) b ob,
  λ e. ap (portable_fingerprint p digest) e ∙ ap digest (payload-under_key (key_of a) b),
)
