-- ===== src/Registry/RecoveryStates.antt =====
-- `recovery_state` on a registry whose claims are exclusive.
use aipcs_mcp.Prelude.{keep, Text, ℕ, List}
use aipcs_mcp.Registry.Tables.{blocks, ClaimRow, Registry}

module _ (principal : Text) (service : ℕ) where
  -- The active claims of the service.
  abbrev active : List ClaimRow → List ClaimRow
  active = keep (blocks principal service)
