-- ===== src/Lifecycle/Intents.antt =====
-- What an intent of lifecycle.py says of the request that it was made from.
use aipcs_mcp.Prelude.{
  same, Option-cases, Text, Text-discrete, >>=-eq-ok, ok-injective, reject-rest, ok, err, ◌≡◌, refl,
  sym, ap, ◌∙◌, subst, ◌≢◌, inl, inr, true, arith,
}
use aipcs_mcp.Manifest.{ManifestV2, model_validate}
use aipcs_mcp.Manifest.Detached.{model_validate_idem}
use aipcs_mcp.Platform.{Platform, IsStripping, LifecycleKind}
use aipcs_mcp.Lifecycle.Vocabulary.{
  LifecyclePhase, fingerprint_invalid, fingerprint_mismatch, phase_not_monotonic,
}
use aipcs_mcp.Lifecycle.Command.{
  kind_of, fields_of, validate_common_fields, manifest_snapshot, lifecycle_fingerprint,
  CommandFields, LifecycleCommand,
}
use aipcs_mcp.Lifecycle.Intent.{
  valid_fingerprint, valid_intent_version, version_error, is_terminal, check_target,
  command_for_intent, make_intent, with_phase, prepare_intent, LifecycleIntent,
}

-- What `make_intent` has checked when it returns.
pub record IsIntent (p : Platform) (i : LifecycleIntent) : Type 0 where
  pub fields_checked : validate_common_fields i.fields ≡ ok tt
  pub fingerprint_checked : valid_fingerprint i.fingerprint ≡ true
  pub target_detached : manifest_snapshot p i.target_manifest ≡ ok i.target_manifest
  pub version_checked :
      valid_intent_version i.kind i.expected_schema_version i.target_manifest.schema_version ≡ true
  pub command : LifecycleCommand
  pub command_made : command_for_intent p i.kind i.fields i.target_manifest ≡ ok command
  pub fingerprint_matches :
      same Text-discrete i.fingerprint (lifecycle_fingerprint p command) ≡ true

-- The intent has the parts that it was made from.
pub record IsMadeFrom (p : Platform) (k : LifecycleKind) (phase : LifecyclePhase)
    (c : CommandFields) (fingerprint : Text) (target : ManifestV2) (i : LifecycleIntent)
    : Type 0 where
  pub kind : i.kind ≡ k
  pub at_phase : i.phase ≡ phase
  pub request : i.fields ≡ c
  pub stamp : i.fingerprint ≡ fingerprint
  pub snapshot : manifest_snapshot p target ≡ ok i.target_manifest

-- In another phase the constructor accepts the same parts.
pub make_intent-phase :
    (p : Platform) (k : LifecycleKind) (phase next : LifecyclePhase) (c : CommandFields)
    (fingerprint : Text) (target : ManifestV2) {i : LifecycleIntent}
    → make_intent p k phase c fingerprint target ≡ ok i
    → make_intent p k next c fingerprint target ≡ ok (record i { phase = next })
unfolding make_intent
make_intent-phase p k phase next c fingerprint target h =
    let (_, fields, h1) = >>=-eq-ok (validate_common_fields c) _ h in
    let (hex, h2) = reject-rest (valid_fingerprint fingerprint) fingerprint_invalid _ h1 in
    let (snapshot, detached, h3) = >>=-eq-ok (manifest_snapshot p target) _ h2 in
    let (version, h4) =
      reject-rest (valid_intent_version k c.expected_schema_version snapshot.schema_version)
        (version_error k) _ h3 in
    let (command, made, h5) = >>=-eq-ok (command_for_intent p k c snapshot) _ h4 in
    let (match, h6) =
      reject-rest (same Text-discrete fingerprint (lifecycle_fingerprint p command))
        fingerprint_mismatch _ h5 in
    subst
      (λ (i : LifecycleIntent).
        make_intent p k next c fingerprint target ≡ ok (record i { phase = next }))
      (ok-injective h6) (simp (fields, hex, detached, version, made, match))

terminal_of : (phase : LifecyclePhase) → phase ≢ LifecyclePhase.prepared → is_terminal phase ≡ true
terminal_of LifecyclePhase.prepared ne = absurd (ne refl)
terminal_of _ ne = refl

module _ (p : Platform) (strips : IsStripping p) where
  pub manifest_snapshot_idem :
      (m : ManifestV2) {n : ManifestV2}
      → manifest_snapshot p m ≡ ok n
      → manifest_snapshot p n ≡ ok n
  unfolding manifest_snapshot
  manifest_snapshot_idem m {n} h = elim (Option-cases (model_validate p.strip m)) [
    | inl e ↦ ground arith
    | inr (a, e) ↦ ground (arith, (model_validate_idem p.strip strips.strip_idem m e).0)
  ]

  pub make_intent-IsIntent :
      (k : LifecycleKind) (phase : LifecyclePhase) (c : CommandFields) (fingerprint : Text)
      (target : ManifestV2) {i : LifecycleIntent}
      → make_intent p k phase c fingerprint target ≡ ok i
      → IsIntent p i × IsMadeFrom p k phase c fingerprint target i
  unfolding make_intent
  make_intent-IsIntent k phase c fingerprint target h =
      let (_, fields, h1) = >>=-eq-ok (validate_common_fields c) _ h in
      let (hex, h2) = reject-rest (valid_fingerprint fingerprint) fingerprint_invalid _ h1 in
      let (snapshot, detached, h3) = >>=-eq-ok (manifest_snapshot p target) _ h2 in
      let (version, h4) =
        reject-rest (valid_intent_version k c.expected_schema_version snapshot.schema_version)
          (version_error k) _ h3 in
      let (command, made, h5) = >>=-eq-ok (command_for_intent p k c snapshot) _ h4 in
      let (match, h6) =
        reject-rest (same Text-discrete fingerprint (lifecycle_fingerprint p command))
          fingerprint_mismatch _ h5 in
      subst (λ i. IsIntent p i × IsMadeFrom p k phase c fingerprint target i) (ok-injective h6)
        (
          record {
            fields_checked = fields;
            fingerprint_checked = hex;
            target_detached = manifest_snapshot_idem target detached;
            version_checked = version;
            command = command;
            command_made = made;
            fingerprint_matches = match;
          },
          record {
            kind = refl;
            at_phase = refl;
            request = refl;
            stamp = refl;
            snapshot = detached;
          },
        )

  -- `make_intent` succeeds again on the parts of an intent, in any phase.
  pub make_intent_again :
      (i : LifecycleIntent) (phase : LifecyclePhase)
      → IsIntent p i
      → make_intent p i.kind phase i.fields i.fingerprint i.target_manifest
        ≡ ok (record i { phase = phase })
  unfolding make_intent
  make_intent_again i phase h = simp (
    h.fields_checked, h.fingerprint_checked, h.target_detached, h.version_checked, h.command_made,
    h.fingerprint_matches,
  )

  -- If the platform's removal of white space is idempotent, a prepared intent that passes every
  -- check of its constructor moves to either terminal phase without an error: nothing but the phase
  -- changes, and every check of the constructor holds of the result. From that result no call of
  -- `with_phase` succeeds.
  pub with_phase_once :
      (i : LifecycleIntent) (phase : LifecyclePhase)
      → IsIntent p i
      → i.phase ≡ LifecyclePhase.prepared
      → phase ≢ LifecyclePhase.prepared
      → (with_phase p i phase ≡ ok (record i { phase = phase }))
        × IsIntent p (record i { phase = phase })
        × ((next : LifecyclePhase)
            → with_phase p (record i { phase = phase }) next ≡ err phase_not_monotonic)
  unfolding with_phase
  with_phase_once i phase h e ne = (
    simp (e, terminal_of phase ne) (make_intent_again i phase h),
    record {
      fields_checked = h.fields_checked;
      fingerprint_checked = h.fingerprint_checked;
      target_detached = h.target_detached;
      version_checked = h.version_checked;
      command = h.command;
      command_made = h.command_made;
      fingerprint_matches = h.fingerprint_matches;
    },
    λ next. simp (terminal_of phase ne),
  )

  -- If the platform's removal of white space is idempotent, an intent that `prepare_intent` returns
  -- is prepared, has the kind, the fields and the fingerprint of its request, keeps a detached copy
  -- of the given manifest, and passes every check of its constructor.
  pub prepare_intent-IsIntent :
      (command : LifecycleCommand) (target : ManifestV2) {i : LifecycleIntent}
      → prepare_intent p command target ≡ ok i
      → IsIntent p i
        × (i.phase ≡ LifecyclePhase.prepared)
        × (i.kind ≡ kind_of command)
        × (i.fields ≡ fields_of command)
        × (i.fingerprint ≡ lifecycle_fingerprint p command)
        × (manifest_snapshot p target ≡ ok i.target_manifest)
  unfolding prepare_intent
  prepare_intent-IsIntent command target h =
      let (snapshot, detached, h1) = >>=-eq-ok (manifest_snapshot p target) _ h in
      let (_, _, h2) = >>=-eq-ok (check_target command snapshot) _ h1 in
      let (is_intent, made) =
        make_intent-IsIntent (kind_of command) LifecyclePhase.prepared (fields_of command)
          (lifecycle_fingerprint p command) snapshot h2 in
      let same_copy = ok-injective (sym (manifest_snapshot_idem target detached) ∙ made.snapshot) in
      (is_intent, made.at_phase, made.kind, made.request, made.stamp, detached ∙ ap ok same_copy)
