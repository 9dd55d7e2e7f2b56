-- ===== src/Operational/Intent.antt =====
-- `OperationalLifecycleIntent`, over the digest of the sorted compact JSON of a payload.
use aipcs_mcp.Prelude.{
  same, Text, Text-discrete, ◌>>=◌, ◌>>◌, reject, ok, Bool, true, false, not, ◌&&◌,
}
use aipcs_mcp.Lifecycle.{valid_fingerprint}
use aipcs_mcp.Registry.{OperationalStatus}
use aipcs_mcp.Operational.Command.{
  Operational, OperationalStatus-discrete, validate_command_fields, make_operational_command,
  deterministic_target_status, canonical_operational_lifecycle_payload, OperationalFields,
  OperationalLifecycleCommand, OperationalPayload, OperationalLifecycleKind,
  OperationalLifecyclePhase, target_status_refused, fingerprint_refused, fingerprint_differs,
  phase_refused,
}

pub record OperationalLifecycleIntent : Type 0 where
  pub kind : OperationalLifecycleKind
  pub phase : OperationalLifecyclePhase
  pub fields : OperationalFields
  pub target_operational_status : OperationalStatus
  pub fingerprint : Text

abbrev pub is_terminal_phase : OperationalLifecyclePhase → Bool
is_terminal_phase OperationalLifecyclePhase.prepared = false
is_terminal_phase _ = true

abbrev pub is_prepared_phase : OperationalLifecyclePhase → Bool
is_prepared_phase OperationalLifecyclePhase.prepared = true
is_prepared_phase _ = false

module _ (digest : OperationalPayload → Text) where
  unfoldable pub operational_lifecycle_fingerprint : OperationalLifecycleCommand → Text
  unfolding canonical_operational_lifecycle_payload
  operational_lifecycle_fingerprint command =
      digest (canonical_operational_lifecycle_payload command)

  -- `OperationalLifecycleIntent.__post_init__`, with `_command_for_intent`
  unfoldable pub make_operational_intent :
      OperationalLifecycleIntent → Operational OperationalLifecycleIntent
  unfolding validate_command_fields OperationalStatus-discrete deterministic_target_status
      valid_fingerprint make_operational_command operational_lifecycle_fingerprint Text-discrete
  make_operational_intent i = do
    validate_command_fields i.fields
    reject
        (not (
          same OperationalStatus-discrete i.target_operational_status
            (deterministic_target_status i.kind)))
        target_status_refused
    reject (not (valid_fingerprint i.fingerprint)) fingerprint_refused
    command ← make_operational_command i.kind i.fields
    reject (not (same Text-discrete i.fingerprint (operational_lifecycle_fingerprint command)))
        fingerprint_differs
    ok i

  -- `with_phase`
  unfoldable pub with_operational_phase :
      OperationalLifecycleIntent
      → OperationalLifecyclePhase
      → Operational OperationalLifecycleIntent
  unfolding make_operational_intent
  with_operational_phase i phase = do
    reject (not (is_prepared_phase i.phase && is_terminal_phase phase)) phase_refused
    make_operational_intent (record i { phase = phase })

  unfoldable pub prepare_operational_intent :
      OperationalLifecycleCommand → Operational OperationalLifecycleIntent
  unfolding make_operational_intent operational_lifecycle_fingerprint deterministic_target_status
  prepare_operational_intent command = make_operational_intent (record {
    kind = command.kind;
    phase = OperationalLifecyclePhase.prepared;
    fields = command.fields;
    target_operational_status = deterministic_target_status command.kind;
    fingerprint = operational_lifecycle_fingerprint command;
  })
