-- ===== src/Operational/Prepared.antt =====
-- A command whose fields are valid is prepared, read back, and moved to one terminal phase.
use aipcs_mcp.Prelude.{same_self, Text, Text-discrete, >>=-eq-ok, ok, err, ◌≡◌, true, false, arith}
use aipcs_mcp.Lifecycle.{valid_fingerprint}
use aipcs_mcp.Operational.Command.{
  OperationalStatus-discrete, validate_command_fields, make_operational_command,
  deterministic_target_status, canonical_operational_lifecycle_payload, OperationalLifecycleCommand,
  OperationalPayload, OperationalLifecyclePhase, phase_refused,
}
use aipcs_mcp.Operational.Intent.{
  is_terminal_phase, is_prepared_phase, operational_lifecycle_fingerprint, make_operational_intent,
  with_operational_phase, prepare_operational_intent, OperationalLifecycleIntent,
}

-- A digest is 64 lowercase hexadecimal digits.
pub record IsDigest {A : Type 0} (digest : A → Text) : Type 0 where
  pub hexadecimal : (x : A) → valid_fingerprint (digest x) ≡ true

pub not_prepared :
    (phase : OperationalLifecyclePhase)
    → is_terminal_phase phase ≡ true
    → is_prepared_phase phase ≡ false
not_prepared phase t = ground arith

module _ (digest : OperationalPayload → Text) (c : OperationalLifecycleCommand) where
  -- The intent of a command, in a phase.
  unfoldable pub intent_in : OperationalLifecyclePhase → OperationalLifecycleIntent
  unfolding operational_lifecycle_fingerprint deterministic_target_status
  intent_in phase = record {
    kind = c.kind;
    phase = phase;
    fields = c.fields;
    target_operational_status = deterministic_target_status c.kind;
    fingerprint = operational_lifecycle_fingerprint digest c;
  }

  made :
      IsDigest digest
      → make_operational_command c.kind c.fields ≡ ok c
      → (phase : OperationalLifecyclePhase)
      → make_operational_intent digest (intent_in phase) ≡ ok (intent_in phase)
  unfolding make_operational_intent make_operational_command intent_in
  made d h phase =
      let (_, fields, _) = >>=-eq-ok (validate_command_fields c.fields) _ h in
      simp (
        fields,
        same_self OperationalStatus-discrete (deterministic_target_status c.kind),
        d.hexadecimal (canonical_operational_lifecycle_payload c),
        same_self Text-discrete (digest (canonical_operational_lifecycle_payload c)),
      )

  -- If a digest is 64 lowercase hexadecimal digits, a command that its constructor accepts is
  -- prepared without an error, its intent has the target status of its kind, either terminal phase
  -- is accepted once and changes nothing but the phase, and from there no phase is accepted.
  pub prepare_operational_intent_lem :
      IsDigest digest
      → make_operational_command c.kind c.fields ≡ ok c
      → (prepare_operational_intent digest c ≡ ok (intent_in OperationalLifecyclePhase.prepared))
        × ((phase : OperationalLifecyclePhase)
            → is_terminal_phase phase ≡ true
            → (with_operational_phase digest (intent_in OperationalLifecyclePhase.prepared) phase
                ≡ ok (intent_in phase))
              × ((next : OperationalLifecyclePhase)
                  → with_operational_phase digest (intent_in phase) next ≡ err phase_refused))
  unfolding prepare_operational_intent with_operational_phase intent_in
  prepare_operational_intent_lem d h = (
    made d h OperationalLifecyclePhase.prepared,
    λ phase t. (simp t (made d h phase), λ next. simp (not_prepared phase t)),
  )
