-- ===== src/Portable/Completed.antt =====
-- What the unit of work completes an operational claim and a purge with is accepted by the claim.
use aipcs_mcp.Prelude.{
  same, same_self, ◌==◌, Text, Text-discrete, >>=-eq-ok, reject-ok, ok-injective, reject-rest, ok,
  ℕ, ◌+◌, ◌≡◌, refl, sym, ap, ◌≢◌, true, false, Option, none, some, arith,
}
use aipcs_mcp.Platform.{Platform}
use aipcs_mcp.Lifecycle.{max_principal_length, max_created_via_length, valid_text}
use aipcs_mcp.Registry.{namespace_of, Service, DesignState, OperationalStatus}
use aipcs_mcp.Operational.{
  OperationalStatus-discrete, deterministic_target_status, is_allowed_source,
  transition_target_status, OperationalFields, OperationalLifecycleCommand, OperationalPayload,
  OperationalLifecycleKind, OperationalLifecyclePhase, transition_unsupported,
}
use aipcs_mcp.Operational.Matrix.{
  transition_target_status-iff-Step, Step, suspends, resumes, archives_active, archives_suspended,
  restores,
}
use aipcs_mcp.Operational.Prepared.{intent_in}
use aipcs_mcp.Portable.Command.{
  validate_principal, validate_created_via, validate_service_id, validate_common, authority_receipt,
  validate_purge_authority, make_portable_command, PurgeAuthority, PortablePayload,
  PurgeAuthorityKind, verified_receipt, explicit_override, principal_rejected, created_via_rejected,
  purge_command,
}
use aipcs_mcp.Portable.Intent.{intent_of_command}
use aipcs_mcp.Portable.Completion.{
  tombstone_receipt, valid_tombstone, completes_operational, completes_portable,
  operational_service, tombstone_of, service_result, tombstone_result,
}
use aipcs_mcp.Portable.Prepared.{validate_common-IsCommon}

Step-moves : {k : OperationalLifecycleKind} {s t : OperationalStatus} → Step k s t → t ≢ s
Step-moves suspends e = absurd (ground arith)
Step-moves resumes e = absurd (ground arith)
Step-moves archives_active e = absurd (ground arith)
Step-moves archives_suspended e = absurd (ground arith)
Step-moves restores e = absurd (ground arith)

equal_numbers : (a b : ℕ) → a ≡ b → (a == b) ≡ true
equal_numbers a b e = ground arith

equal_texts : (a b : Text) → a ≡ b → same Text-discrete a b ≡ true
equal_texts a b e = rw e (same_self Text-discrete b)

equal_statuses : (a b : OperationalStatus) → a ≡ b → same OperationalStatus-discrete a b ≡ true
equal_statuses a b e = rw e (same_self OperationalStatus-discrete b)

transition_target_status-target :
    (c : OperationalLifecycleCommand) (state : DesignState) (s t : OperationalStatus)
    → transition_target_status c state s ≡ ok t
    → t ≡ deterministic_target_status c.kind
unfolding transition_target_status
transition_target_status-target c state s t h =
    let (_, rest) = reject-rest (is_allowed_source c.kind s) transition_unsupported _ h in
    sym (ok-injective rest)

-- If a service has the principal, the id and the revision that a command names, and the command has
-- a target status from the status of the service, then the service with that status and the next
-- revision completes the claim of the command, and its status differs from the one before.
pub operational_service-completes_operational :
    (digest : OperationalPayload → Text) (c : OperationalLifecycleCommand) (s : Service)
    (t : OperationalStatus) (at : ℕ)
    → s.principal_id ≡ c.fields.principal_id
    → s.service_id ≡ c.fields.service_id
    → s.service_revision ≡ c.fields.expected_service_revision
    → transition_target_status c s.design_state s.operational_status ≡ ok t
    → (completes_operational
          (intent_in digest c OperationalLifecyclePhase.completed)
          (service_result (operational_service s t at))
        ≡ true)
      × (t ≢ s.operational_status)
unfolding completes_operational operational_service intent_in
operational_service-completes_operational digest c s t at e1 e2 e3 h = (
  simp (
    equal_texts s.principal_id c.fields.principal_id e1,
    equal_numbers s.service_id c.fields.service_id e2,
    equal_numbers (s.service_revision + 1) (c.fields.expected_service_revision + 1)
        (ap (λ n. n + 1) e3),
    equal_statuses t (deterministic_target_status c.kind)
        (transition_target_status-target c s.design_state s.operational_status t h),
  ),
  Step-moves ((transition_target_status-iff-Step c s.design_state s.operational_status t).0 h),
)

valid_principal :
    (value : Text) → validate_principal value ≡ ok tt → valid_text value max_principal_length ≡ true
unfolding validate_principal
valid_principal value h = reject-ok (valid_text value max_principal_length) principal_rejected h

valid_created_via :
    (value : Text)
    → validate_created_via value ≡ ok tt
    → valid_text value max_created_via_length ≡ true
unfolding validate_created_via
valid_created_via value h =
    reject-ok (valid_text value max_created_via_length) created_via_rejected h

valid_service_id : (value : ℕ) → validate_service_id value ≡ ok tt → (value == 0) ≡ false
unfolding validate_service_id
valid_service_id value h = ground arith

own_receipt_of :
    (k : PurgeAuthorityKind) (receipt : Option ℕ)
    → authority_receipt k receipt ≡ ok tt
    → tombstone_receipt k receipt receipt ≡ true
own_receipt_of verified_receipt none h = cc
own_receipt_of verified_receipt (some n) h = equal_numbers n n refl
own_receipt_of explicit_override none h = refl
own_receipt_of explicit_override (some n) h = cc

own_receipt :
    (a : PurgeAuthority)
    → validate_purge_authority a ≡ ok tt
    → tombstone_receipt a.kind a.receipt_id a.receipt_id ≡ true
unfolding validate_purge_authority
own_receipt a h = own_receipt_of a.kind a.receipt_id h

-- If a purge command is accepted by its constructors and a service has the principal and the id that
-- it names, then the tombstone of the service passes every check of its constructor and completes
-- the claim of the command.
pub tombstone_of-completes_portable :
    (p : Platform) (digest : PortablePayload → Text) (c : OperationalFields) (a : PurgeAuthority)
    (s : Service) (at : ℕ)
    → make_portable_command p (purge_command c a) ≡ ok (purge_command c a)
    → s.principal_id ≡ c.principal_id
    → s.service_id ≡ c.service_id
    → (let i = intent_of_command p digest OperationalLifecyclePhase.completed (purge_command c a) in
        let t = tombstone_of p i a s at in
        (valid_tombstone p t ≡ true) × (completes_portable i (tombstone_result t) ≡ true))
unfolding tombstone_of valid_tombstone completes_portable intent_of_command make_portable_command
tombstone_of-completes_portable p digest c a s at h e1 e2 =
    let (_, receipt, h1) = >>=-eq-ok (validate_purge_authority a) _ h in
    let (_, common, _) = >>=-eq-ok (validate_common c) _ h1 in
    let v = validate_common-IsCommon c common in
    (
      simp (
        e1,
        e2,
        valid_principal c.principal_id v.principal,
        valid_service_id c.service_id v.service,
        same_self Text-discrete (namespace_of p c.service_id),
        valid_created_via c.created_via v.via,
        own_receipt a receipt,
      ),
      simp (
        equal_texts s.principal_id c.principal_id e1,
        equal_numbers s.service_id c.service_id e2,
      ),
    )
