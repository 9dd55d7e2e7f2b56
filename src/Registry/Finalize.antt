-- ===== src/Registry/Finalize.antt =====
-- `finalize_completed` and `finalize_recovery_required`: a prepared claim becomes terminal.
use aipcs_mcp.Prelude.{
  leb, same, Text-discrete, ◌>>=◌, ◌>>◌, ok, err, ℕ, Bool, true, false, ◌&&◌, Option, none, some,
}
use aipcs_mcp.Manifest.{ManifestV2-discrete}
use aipcs_mcp.Platform.{LifecycleKind-discrete, Platform}
use aipcs_mcp.Lifecycle.{
  LifecyclePhase-discrete, LifecyclePhase, CommandFields-discrete, with_phase, LifecycleIntent,
}
use aipcs_mcp.Registry.Services.{Service}
use aipcs_mcp.Registry.Tables.{
  Stored, claim_row, stored_service, append, update_claim, save, ClaimRow, Registry,
  migration_error, at_phase, AuditOutcome, audit_completed, audit_recovery_required,
}
use aipcs_mcp.Registry.Claims.{
  bounded, demand, complete_claim, decode_intent, decode_result, LifecycleRegistryOutcome,
  prepared_claim, recovery_required_claim,
}
use aipcs_mcp.Registry.Admit.{Admission}
use aipcs_mcp.Registry.Completion.{
  prepared_intent, completed_at, finalization_preconditions, terminal_service, LifecycleCompletion,
}

-- The parts of two intents that `==` compares.
unfoldable pub same_intent : LifecycleIntent → LifecycleIntent → Bool
unfolding LifecycleKind-discrete LifecyclePhase-discrete CommandFields-discrete Text-discrete
    ManifestV2-discrete
same_intent a b =
    same LifecycleKind-discrete a.kind b.kind
    && same LifecyclePhase-discrete a.phase b.phase
    && same CommandFields-discrete a.fields b.fields
    && same Text-discrete a.fingerprint b.fingerprint
    && same ManifestV2-discrete a.target_manifest b.target_manifest

-- The branches on the phase of the stored intent.
abbrev pub stored_outcome :
    Platform
    → ClaimRow
    → LifecycleIntent
    → LifecycleIntent
    → LifecyclePhase
    → Stored LifecycleRegistryOutcome
stored_outcome p row i stored LifecyclePhase.prepared = do
  demand (same_intent stored i)
  ok (prepared_claim stored)
stored_outcome p row i stored LifecyclePhase.recovery_required = ok (recovery_required_claim stored)
stored_outcome p row i stored LifecyclePhase.completed = do
  s ← decode_result p row i.principal_id i.service_id
  complete_claim stored s

abbrev pub terminal_or_prepared_row :
    Platform → LifecycleIntent → Option ClaimRow → Stored LifecycleRegistryOutcome
terminal_or_prepared_row p i none = err migration_error
terminal_or_prepared_row p i (some row) = do
  demand (same Text-discrete row.fingerprint i.fingerprint)
  stored ← decode_intent p row
  demand (same LifecycleKind-discrete stored.kind i.kind)
  stored_outcome p row i stored stored.phase

-- `_terminal_or_prepared`
unfoldable pub terminal_or_prepared :
    Platform → Registry → LifecycleIntent → Stored LifecycleRegistryOutcome
unfolding LifecyclePhase-discrete LifecycleKind-discrete Text-discrete same_intent
terminal_or_prepared p r i = do
  demand (same LifecyclePhase-discrete i.phase LifecyclePhase.prepared)
  terminal_or_prepared_row p i (claim_row r i.principal_id i.idempotency_key)

-- `_append_terminal`
unfoldable pub append_terminal : LifecycleIntent → AuditOutcome → ℕ → Registry → Registry
unfolding append
append_terminal i outcome at = append (record {
  action = i.kind;
  outcome = outcome;
  service_id = i.service_id;
  principal_id = i.principal_id;
  created_via = i.created_via;
  at = at;
})

abbrev pub to_recovery : ClaimRow → ClaimRow
to_recovery c = record c { phase = at_phase LifecyclePhase.recovery_required }

abbrev pub to_completed : Service → ClaimRow → ClaimRow
to_completed s c = record c { phase = at_phase LifecyclePhase.completed; result = some s }

-- `_mark_recovery_required`
unfoldable pub mark_recovery_required : Platform → LifecycleIntent → ℕ → Registry → Stored Admission
unfolding append_terminal
mark_recovery_required p i at r = do
  r' ← update_claim i to_recovery r
  terminal ← bounded (with_phase p i LifecyclePhase.recovery_required)
  ok (recovery_required_claim terminal, append_terminal i audit_recovery_required at r')

-- The writes that follow a saved service.
unfoldable pub complete_saved :
    Platform → LifecycleCompletion → Service → Registry → Stored Admission
unfolding append_terminal
complete_saved p c terminal r = do
  let i = prepared_intent c
  terminal_intent ← bounded (with_phase p i LifecyclePhase.completed)
  r' ← update_claim i (to_completed terminal) r
  outcome ← complete_claim terminal_intent terminal
  ok (outcome, append_terminal i audit_completed (completed_at c) r')

abbrev pub after_save :
    Platform → LifecycleCompletion → Service → Registry → Option Registry → Stored Admission
after_save p c terminal r none = mark_recovery_required p (prepared_intent c) (completed_at c) r
after_save p c terminal r (some r') = complete_saved p c terminal r'

-- The service is saved if it meets the preconditions.
abbrev pub finalize_checked :
    Platform → LifecycleCompletion → Registry → Service → Bool → Stored Admission
finalize_checked p c r s false = mark_recovery_required p (prepared_intent c) (completed_at c) r
finalize_checked p c r s true = do
  saved ← save p (terminal_service c s) (prepared_intent c).expected_service_revision r
  after_save p c (terminal_service c s) r saved

abbrev pub finalize_service :
    Platform → LifecycleCompletion → Registry → Option Service → Stored Admission
finalize_service p c r none = mark_recovery_required p (prepared_intent c) (completed_at c) r
finalize_service p c r (some s) = do
  demand (leb s.updated_at (completed_at c))
  finalize_checked p c r s (finalization_preconditions c s)

abbrev pub finalize_prepared :
    Platform → LifecycleCompletion → Registry → LifecycleRegistryOutcome → Stored Admission
finalize_prepared p c r (prepared_claim stored) = do
  let i = prepared_intent c
  s ← stored_service p r i.principal_id i.service_id
  finalize_service p c r s
finalize_prepared p c r existing = ok (existing, r)

unfoldable pub finalize_completed : Platform → LifecycleCompletion → Registry → Stored Admission
unfolding terminal_or_prepared finalization_preconditions terminal_service complete_saved
    mark_recovery_required
finalize_completed p c r = do
  existing ← terminal_or_prepared p r (prepared_intent c)
  finalize_prepared p c r existing

abbrev pub recover_prepared :
    Platform → LifecycleIntent → ℕ → Registry → LifecycleRegistryOutcome → Stored Admission
recover_prepared p i at r (prepared_claim stored) = mark_recovery_required p i at r
recover_prepared p i at r existing = ok (existing, r)

unfoldable pub finalize_recovery_required :
    Platform → LifecycleIntent → ℕ → Registry → Stored Admission
unfolding terminal_or_prepared mark_recovery_required
finalize_recovery_required p i at r = do
  existing ← terminal_or_prepared p r i
  recover_prepared p i at r existing
