-- ===== src/Registry/Preparable.antt =====
-- A command and a target that `prepare_intent` accepts.
use aipcs_mcp.Prelude.{
  leb, same, eq_of_same, same_self, ◌==◌, Option-cases, is_none, Text-discrete, reject, >>=-eq-ok,
  reject-rest, ok, ℕ, ◌+◌, ◌≡◌, refl, sym, ◌∙◌, subst, inl, inr, Bool, true, false, not, ◌&&◌,
  Option, none, some, arith, ℕ_discrete,
}
use aipcs_mcp.Manifest.{
  ManifestV2-discrete, ManifestV2, model_validate, numeric_manifest, manifest_eq,
}
use aipcs_mcp.Platform.{Platform, IsStripping}
use aipcs_mcp.Lifecycle.{
  max_schema_version, LifecyclePhase, evolve_version_bound, evolve_version_step, kind_of, fields_of,
  validate_common_fields, make_materialise_command, manifest_snapshot, make_evolve_command,
  lifecycle_fingerprint, CommandFields, LifecycleCommand, materialise_command, evolve_command,
  valid_fingerprint, valid_intent_version, check_target, command_for_intent, make_intent,
  prepare_intent, LifecycleIntent,
}
use aipcs_mcp.Lifecycle.Intents.{manifest_snapshot_idem}
use aipcs_mcp.Registry.Services.{
  is_active, is_seeded, valid_version, valid_stored_manifest, valid_storage, valid_state,
  valid_service_fields, valid_service, Service,
}
use aipcs_mcp.Registry.Claims.{is_some_eq}
use aipcs_mcp.Registry.Admit.{supported_lifecycle_state, admission_target}
use aipcs_mcp.Registry.Healthy.{IsBuilt}

-- What `prepare_intent` checks of a command and its target.
pub record IsPreparable (p : Platform) (command : LifecycleCommand) (target : ManifestV2)
    : Type 0 where
  pub fields_checked : validate_common_fields (fields_of command) ≡ ok tt
  pub detached : manifest_snapshot p target ≡ ok target
  pub version :
      valid_intent_version
        (kind_of command)
        (fields_of command).expected_schema_version
        target.schema_version
      ≡ true
  pub on_target : check_target command target ≡ ok tt
  pub made : command_for_intent p (kind_of command) (fields_of command) target ≡ ok command

abbrev pub intent_of : Platform → LifecycleCommand → ManifestV2 → LifecycleIntent
intent_of p command target = record {
  kind = kind_of command;
  phase = LifecyclePhase.prepared;
  fields = fields_of command;
  fingerprint = lifecycle_fingerprint p command;
  target_manifest = target;
}

pub prepare_intent-total :
    (p : Platform) (command : LifecycleCommand) (target : ManifestV2)
    → valid_fingerprint (lifecycle_fingerprint p command) ≡ true
    → IsPreparable p command target
    → prepare_intent p command target ≡ ok (intent_of p command target)
unfolding prepare_intent make_intent
prepare_intent-total p command target digest h = simp (
  h.detached,
  h.on_target,
  h.fields_checked,
  digest,
  h.version,
  h.made,
  same_self Text-discrete (lifecycle_fingerprint p command),
)

-- An evolution keeps the snapshot that its constructor took.
pub evolve-IsPreparable :
    (p : Platform)
    → IsStripping p
    → (c : CommandFields) (target : ManifestV2) → IsBuilt p (evolve_command c target)
    → IsPreparable p (evolve_command c target) target
unfolding make_evolve_command command_for_intent valid_intent_version manifest_eq
evolve-IsPreparable p strips c target (requested, h) =
    let (_, fields, h1) = >>=-eq-ok (validate_common_fields c) _ h in
    let (_, bound, h2) =
      >>=-eq-ok (reject (leb max_schema_version c.expected_schema_version) evolve_version_bound) _
        h1 in
    let (snapshot, detached, h3) = >>=-eq-ok (manifest_snapshot p requested) _ h2 in
    let (step, h4) =
      reject-rest (snapshot.schema_version == c.expected_schema_version + 1) evolve_version_step _
        h3 in
    let e : snapshot ≡ target = cc in
    let again =
      subst (λ m. manifest_snapshot p m ≡ ok m) e
        (manifest_snapshot_idem p strips requested detached) in
    let version : (target.schema_version == c.expected_schema_version + 1) ≡ true =
      subst (λ m. (m.schema_version == c.expected_schema_version + 1) ≡ true) e step in
    record {
      fields_checked = fields;
      detached = again;
      version = version;
      on_target = simp (same_self ManifestV2-discrete (numeric_manifest target));
      made = simp (fields, bound, again, version);
    }

middle_two : (a b c d e : Bool) → (a && b && c && d && e) ≡ true → (b ≡ true) × (c ≡ true)
middle_two a b c d e h = ground arith

-- The parts of a service's checks that the admission relies on.
valid_service-manifest :
    (p : Platform) (s : Service)
    → valid_service p s ≡ true
    → (valid_version s.manifest s.schema_version ≡ true)
      × (valid_stored_manifest p s.manifest ≡ true)
unfolding valid_service valid_service_fields
valid_service-manifest p s h =
    middle_two (valid_service_fields p s) (valid_version s.manifest s.schema_version)
      (valid_stored_manifest p s.manifest)
      (valid_storage p s.service_id s.created_at s.updated_at s.materialised_at s.storage)
      (valid_state s.design_state s.manifest s.materialised_at s.storage) h

manifest_snapshot-some :
    (p : Platform) (m : ManifestV2) {n : ManifestV2}
    → model_validate p.strip m ≡ some n
    → manifest_snapshot p m ≡ ok n
unfolding manifest_snapshot
manifest_snapshot-some p m e = ground arith

decoded_manifest :
    (p : Platform) (m : ManifestV2)
    → valid_stored_manifest p (some m) ≡ true
    → manifest_snapshot p m ≡ ok m
decoded_manifest p m h = elim (Option-cases (model_validate p.strip m)) [
  | inl e ↦ absurd (ground arith)
  | inr (n, e) ↦
      let equal : same ManifestV2-discrete n m ≡ true = rw e at h in
      subst (λ x. manifest_snapshot p m ≡ ok x) (eq_of_same ManifestV2-discrete n m equal)
        (manifest_snapshot-some p m e)
]

-- The manifest of a service with the first schema version.
first_version :
    (m : Option ManifestV2) (version : Option ℕ) (expected : ℕ)
    → valid_version m version ≡ true
    → is_some_eq ℕ_discrete version expected ≡ true
    → is_some_eq ℕ_discrete version 1 ≡ true
    → (n : ManifestV2) × (m ≡ some n) × (expected ≡ 1) × (n.schema_version ≡ 1)
first_version none none expected h e f = cc
first_version none (some v) expected h e f = cc
first_version (some n) none expected h e f = cc
first_version (some n) (some v) expected h e f =
    let e' = eq_of_same ℕ_discrete v expected e in
    let f' = eq_of_same ℕ_discrete v 1 f in (n, refl, sym e' ∙ f', ground arith)

built_fields :
    (c : CommandFields)
    → make_materialise_command c ≡ ok (materialise_command c)
    → validate_common_fields c ≡ ok tt
unfolding make_materialise_command
built_fields c h = let (_, e, _) = >>=-eq-ok (validate_common_fields c) _ h in e

-- A service in the state that a materialisation needs has a manifest that can be its target.
pub materialise-IsPreparable :
    (p : Platform) (c : CommandFields) (s : Service)
    → IsBuilt p (materialise_command c)
    → valid_service p s ≡ true
    → is_some_eq ℕ_discrete s.schema_version c.expected_schema_version ≡ true
    → is_some_eq ℕ_discrete s.schema_version 1 ≡ true
    → (target : ManifestV2) × (s.manifest ≡ some target)
      × IsPreparable p (materialise_command c) target
unfolding command_for_intent valid_intent_version
materialise-IsPreparable p c s built v e f =
    let (versions, stored) = valid_service-manifest p s v in
    let (m, found, one, first) =
      first_version s.manifest s.schema_version c.expected_schema_version versions e f in
    (
      m,
      found,
      record {
        fields_checked = built_fields c built;
        detached =
            decoded_manifest p m (subst (λ x. valid_stored_manifest p x ≡ true) found stored);
        version = rw (one, first) refl;
        on_target = rw (one, first) refl;
        made = built;
      },
    )

second : (a b : Bool) → not (a && b) ≡ false → b ≡ true
second a b h = ground arith

fourth : (a b c d e f : Bool) → not (a && b && c && d && e && f) ≡ false → d ≡ true
fourth a b c d e f h = ground arith

-- The target of a request, with a service in the state that its kind needs.
pub targets :
    (p : Platform) (strips : IsStripping p) (command : LifecycleCommand) (s : Service)
    → IsBuilt p command
    → valid_service p s ≡ true
    → not (
        s.service_revision == (fields_of command).expected_service_revision
        && is_some_eq ℕ_discrete s.schema_version (fields_of command).expected_schema_version)
      ≡ false
    → not (supported_lifecycle_state s (kind_of command)) ≡ false
    → (target : ManifestV2) × (admission_target s command ≡ some target)
      × IsPreparable p command target
unfolding supported_lifecycle_state
targets p strips (materialise_command c) s built v current supported =
    materialise-IsPreparable p c s built v
      (second (s.service_revision == c.expected_service_revision)
        (is_some_eq ℕ_discrete s.schema_version c.expected_schema_version) current)
      (fourth (is_active s.operational_status) (not (is_none s.manifest)) (is_seeded s.design_state)
        (is_some_eq ℕ_discrete s.schema_version 1) (is_none s.materialised_at) (is_none s.storage)
        supported)
targets p strips (evolve_command c target) s built v current supported =
    (target, refl, evolve-IsPreparable p strips c target built)
