-- ===== src/Portable/Prepared.antt =====
-- A portable command that its constructors accept is prepared, read back, and moved to one terminal
-- phase.
use aipcs_mcp.Prelude.{
  same, same_self, ◌==◌, Text, Text-discrete, >>=-eq-ok, reject-ok, reject-rest, ok, err, ℕ, ◌≡◌,
  true, ◌&&◌, arith,
}
use aipcs_mcp.Manifest.{identifier}
use aipcs_mcp.Platform.{Platform}
use aipcs_mcp.Registry.{namespace_of}
use aipcs_mcp.Operational.{
  OperationalFields, OperationalLifecyclePhase, is_terminal_phase, is_prepared_phase,
}
use aipcs_mcp.Operational.Prepared.{not_prepared, IsDigest}
use aipcs_mcp.Portable.Command.{
  matches_namespace, validate_principal, validate_created_via, validate_idempotency_key,
  validate_service_id, validate_sha256, is_revision, validate_common, validate_import_identity,
  validate_purge_authority, validate_import, make_portable_command, portable_payload,
  ImportIdentity, ImportFields, PortablePayload, revision_rejected, domain_rejected,
  namespace_rejected, identity_rejected, phase_rejected, PortableCommand, export_command,
  import_command, purge_command,
}
use aipcs_mcp.Portable.Intent.{
  portable_command_for_intent, make_portable_intent, with_portable_phase, intent_of_command,
  portable_intent,
}

-- What `validate_common` has tested.
pub record IsCommon (c : OperationalFields) : Type 0 where
  pub principal : validate_principal c.principal_id ≡ ok tt
  pub via : validate_created_via c.created_via ≡ ok tt
  pub service : validate_service_id c.service_id ≡ ok tt
  revision : is_revision c.expected_service_revision ≡ true
  key : validate_idempotency_key c.idempotency_key ≡ ok tt

pub validate_common-IsCommon : (c : OperationalFields) → validate_common c ≡ ok tt → IsCommon c
unfolding validate_common
validate_common-IsCommon c h =
    let (_, principal, h1) = >>=-eq-ok (validate_principal c.principal_id) _ h in
    let (_, via, h2) = >>=-eq-ok (validate_created_via c.created_via) _ h1 in
    let (_, service, h3) = >>=-eq-ok (validate_service_id c.service_id) _ h2 in
    let (revision, h4) =
      reject-rest (is_revision c.expected_service_revision) revision_rejected _ h3 in
    record { principal = principal; via = via; service = service; revision = revision; key = h4 }

same_number : (n : ℕ) → (n == n) ≡ true
same_number n = ground arith

-- What `validate_import` has tested.
record IsImport (c : ImportFields) : Type 0 where
  pub principal : validate_principal c.principal_id ≡ ok tt
  pub via : validate_created_via c.created_via ≡ ok tt
  owner : same Text-discrete c.identity.principal_id c.principal_id ≡ true
  bundle : validate_sha256 c.bundle_root_sha256 ≡ ok tt
  key : validate_idempotency_key c.idempotency_key ≡ ok tt

validate_import-IsImport : (c : ImportFields) → validate_import c ≡ ok tt → IsImport c
unfolding validate_import
validate_import-IsImport c h =
    let (_, principal, h1) = >>=-eq-ok (validate_principal c.principal_id) _ h in
    let (_, via, h2) = >>=-eq-ok (validate_created_via c.created_via) _ h1 in
    let (owner, h3) =
      reject-rest (same Text-discrete c.identity.principal_id c.principal_id) identity_rejected _
        h2 in
    let (_, bundle, h4) = >>=-eq-ok (validate_sha256 c.bundle_root_sha256) _ h3 in
    record { principal = principal; via = via; owner = owner; bundle = bundle; key = h4 }

validate_import_identity-ok :
    (p : Platform) (i : ImportIdentity)
    → validate_import_identity p i ≡ ok tt
    → (validate_principal i.principal_id ≡ ok tt)
      × (validate_service_id i.service_id ≡ ok tt)
      × (identifier i.domain_name ≡ true)
      × ((matches_namespace i.logical_namespace
            && same Text-discrete i.logical_namespace (namespace_of p i.service_id))
          ≡ true)
unfolding validate_import_identity
validate_import_identity-ok p i h =
    let (_, principal, h1) = >>=-eq-ok (validate_principal i.principal_id) _ h in
    let (_, service, h2) = >>=-eq-ok (validate_service_id i.service_id) _ h1 in
    let (name, h3) = reject-rest (identifier i.domain_name) domain_rejected _ h2 in
    (
      principal,
      service,
      name,
      reject-ok
          (matches_namespace i.logical_namespace
            && same Text-discrete i.logical_namespace (namespace_of p i.service_id))
          namespace_rejected h3,
    )

module _ (p : Platform) (digest : PortablePayload → Text) (d : IsDigest digest) where
  made :
      (command : PortableCommand) (phase : OperationalLifecyclePhase)
      → make_portable_command p command ≡ ok command
      → make_portable_intent p digest (intent_of_command p digest phase command)
        ≡ ok (intent_of_command p digest phase command)
  unfolding make_portable_intent intent_of_command
  made (export_command c) phase h =
      let (_, common, _) = >>=-eq-ok (validate_common c) _ (unfold make_portable_command in h) in
      let v = validate_common-IsCommon c common in
      simp (
        v.principal,
        v.via,
        v.service,
        v.key,
        v.revision,
        d.hexadecimal (portable_payload (export_command c)),
        same_self Text-discrete (digest (portable_payload (export_command c))),
      )
  made (import_command c) phase h =
      let (_, identity, h1) =
        >>=-eq-ok (validate_import_identity p c.identity) _ (unfold make_portable_command in h) in
      let (_, fields, _) = >>=-eq-ok (validate_import c) _ h1 in
      let v = validate_import-IsImport c fields in
      let (principal, service, name, place) = validate_import_identity-ok p c.identity identity in
      simp (
        principal,
        v.principal,
        v.via,
        v.owner,
        v.bundle,
        v.key,
        service,
        name,
        place,
        same_number c.identity.service_id,
        d.hexadecimal (portable_payload (import_command c)),
        same_self Text-discrete (digest (portable_payload (import_command c))),
      )
  made (purge_command c a) phase h =
      let (_, receipt, h1) =
        >>=-eq-ok (validate_purge_authority a) _ (unfold make_portable_command in h) in
      let (_, common, _) = >>=-eq-ok (validate_common c) _ h1 in
      let v = validate_common-IsCommon c common in
      simp (
        receipt,
        v.principal,
        v.via,
        v.service,
        v.key,
        v.revision,
        d.hexadecimal (portable_payload (purge_command c a)),
        same_self Text-discrete (digest (portable_payload (purge_command c a))),
      )

  moved :
      (command : PortableCommand) (phase next : OperationalLifecyclePhase)
      → make_portable_command p command ≡ ok command
      → (is_prepared_phase phase && is_terminal_phase next) ≡ true
      → with_portable_phase p digest (intent_of_command p digest phase command) next
        ≡ ok (intent_of_command p digest next command)
  unfolding with_portable_phase intent_of_command
  moved (export_command c) phase next h t = simp t (made (export_command c) next h)
  moved (import_command c) phase next h t = simp t (made (import_command c) next h)
  moved (purge_command c a) phase next h t = simp t (made (purge_command c a) next h)

  refused :
      (command : PortableCommand) (phase next : OperationalLifecyclePhase)
      → is_terminal_phase phase ≡ true
      → with_portable_phase p digest (intent_of_command p digest phase command) next
        ≡ err phase_rejected
  unfolding with_portable_phase intent_of_command
  refused (export_command c) phase next t = simp (not_prepared phase t)
  refused (import_command c) phase next t = simp (not_prepared phase t)
  refused (purge_command c a) phase next t = simp (not_prepared phase t)

  read_back :
      (command : PortableCommand) (phase : OperationalLifecyclePhase)
      → make_portable_command p command ≡ ok command
      → portable_command_for_intent p (intent_of_command p digest phase command) ≡ ok command
  unfolding portable_command_for_intent intent_of_command
  read_back (export_command c) phase h = h
  read_back (import_command c) phase h = h
  read_back (purge_command c a) phase h = h

  -- If a digest is 64 lowercase hexadecimal digits, an export, import or purge command that its
  -- constructors accept is prepared without an error, its intent gives the command back, either
  -- terminal phase is accepted once and changes nothing but the phase, and from there no phase is
  -- accepted.
  pub portable_intent_lem :
      (command : PortableCommand)
      → make_portable_command p command ≡ ok command
      → (let intent = intent_of_command p digest in
          (portable_intent p digest command
            ≡ ok (intent OperationalLifecyclePhase.prepared command))
          × (portable_command_for_intent p (intent OperationalLifecyclePhase.prepared command)
              ≡ ok command)
          × ((phase : OperationalLifecyclePhase)
              → is_terminal_phase phase ≡ true
              → (with_portable_phase p digest
                    (intent OperationalLifecyclePhase.prepared command)
                    phase
                  ≡ ok (intent phase command))
                × ((next : OperationalLifecyclePhase)
                    → with_portable_phase p digest (intent phase command) next
                      ≡ err phase_rejected)))
  unfolding portable_intent
  portable_intent_lem command h = (
    made command OperationalLifecyclePhase.prepared h,
    read_back command OperationalLifecyclePhase.prepared h,
    λ phase t. (
      moved command OperationalLifecyclePhase.prepared phase h t,
      λ next. refused command phase next t,
    ),
  )
