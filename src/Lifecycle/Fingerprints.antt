-- ===== src/Lifecycle/Fingerprints.antt =====
-- What the fingerprint of a request of lifecycle.py covers.
use aipcs_mcp.Prelude.{Text, ◌≡◌, refl, sym, ap, ◌∙◌, ◌↔◌, Option, none, some}
use aipcs_mcp.Manifest.{ManifestV2}
use aipcs_mcp.Platform.{Payload, Platform, NoCollision}
use aipcs_mcp.Lifecycle.Command.{
  fields_of, canonical_lifecycle_payload, lifecycle_fingerprint, CommandFields, LifecycleCommand,
  materialise_command, evolve_command,
}

-- The same request under another idempotency key.
abbrev pub with_key : Text → LifecycleCommand → LifecycleCommand
with_key key (materialise_command c) = materialise_command (record c { idempotency_key = key })
with_key key (evolve_command c target) = evolve_command (record c { idempotency_key = key }) target

abbrev fields_from : Text → Payload → CommandFields
fields_from key x = record {
  principal_id = x.principal;
  created_via = x.created_via;
  service_id = x.service_id;
  expected_service_revision = x.expected_service_revision;
  expected_schema_version = x.expected_schema_version;
  idempotency_key = key;
}

-- The request of a key that has a payload.
abbrev request_of : Text → Payload → Option ManifestV2 → LifecycleCommand
request_of key x none = materialise_command (fields_from key x)
request_of key x (some target) = evolve_command (fields_from key x) target

request_of-payload :
    (key : Text) (b : LifecycleCommand)
    → (let x = canonical_lifecycle_payload b in request_of key x x.target_manifest) ≡ with_key key b
unfolding canonical_lifecycle_payload
request_of-payload key (materialise_command c) = refl
request_of-payload key (evolve_command c target) = refl

pub with_key_self : (a : LifecycleCommand) → with_key (fields_of a).idempotency_key a ≡ a
with_key_self (materialise_command c) = refl
with_key_self (evolve_command c target) = refl

payload-with_key :
    (key : Text) (b : LifecycleCommand)
    → canonical_lifecycle_payload (with_key key b) ≡ canonical_lifecycle_payload b
unfolding canonical_lifecycle_payload
payload-with_key key (materialise_command c) = refl
payload-with_key key (evolve_command c target) = refl

same_request :
    (a b : LifecycleCommand)
    → canonical_lifecycle_payload a ≡ canonical_lifecycle_payload b
    → a ≡ with_key (fields_of a).idempotency_key b
same_request a b h =
    let key = (fields_of a).idempotency_key in
    sym (with_key_self a)
    ∙ sym (request_of-payload key a)
    ∙ ap (λ (x : Payload). request_of key x x.target_manifest) h
    ∙ request_of-payload key b

-- If the digest does not map two different payloads of the requests to one text, the requests have
-- one fingerprint exactly when they are the same but for the idempotency key.
pub lifecycle_fingerprint-iff-with_key :
    (p : Platform) (a b : LifecycleCommand)
    → NoCollision p (canonical_lifecycle_payload a) (canonical_lifecycle_payload b)
    → (lifecycle_fingerprint p a ≡ lifecycle_fingerprint p b)
      ↔ (a ≡ with_key (fields_of a).idempotency_key b)
unfolding lifecycle_fingerprint
lifecycle_fingerprint-iff-with_key p a b collision_free = (
  λ h. same_request a b (collision_free.injective h),
  λ e.
      ap (lifecycle_fingerprint p) e
      ∙ ap p.digest (payload-with_key (fields_of a).idempotency_key b),
)
