-- ===== src/Registry/Recovery.antt =====
-- `recovery_state`: the active claim of a service, as a state.
use aipcs_mcp.Prelude.{keep, Text, Text-discrete, ok, err, ℕ, List, [], ◌∷◌}
use aipcs_mcp.Lifecycle.{LifecyclePhase, RecoveryState}
use aipcs_mcp.Registry.Tables.{
  Stored, blocks, ClaimRow, Registry, migration_error, ClaimPhase, at_phase,
}

abbrev pub phase_state : ClaimPhase → Stored RecoveryState
phase_state (at_phase LifecyclePhase.prepared) = ok RecoveryState.pending
phase_state (at_phase LifecyclePhase.recovery_required) = ok RecoveryState.recovery_required
phase_state _ = err migration_error

abbrev pub rows_state : List ClaimRow → Stored RecoveryState
rows_state [] = ok RecoveryState.clear
rows_state (c ∷ []) = phase_state c.phase
rows_state (c ∷ other ∷ rest) = err migration_error

-- `recovery_state`
unfoldable pub recovery_state : Registry → Text → ℕ → Stored RecoveryState
unfolding Text-discrete
recovery_state r principal service = rows_state (keep (blocks principal service) r.claims)
