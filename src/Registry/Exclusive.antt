-- ===== src/Registry/Exclusive.antt =====
-- The claims of the registry: one per key, and one active claim per service.
use aipcs_mcp.Prelude.{any, Text-discrete, ◌≡◌, true, false, List, [], ◌∷◌}
use aipcs_mcp.Registry.Tables.{is_active_phase, has_key, blocks, ClaimRow}

-- No two claims have one key, and no two active claims have one service.
unfoldable pub IsExclusive : List ClaimRow → Type 0
unfolding Text-discrete
IsExclusive [] = Unit
IsExclusive (c ∷ cs) =
    (any (has_key c.principal_id c.idempotency_key) cs ≡ false)
    × (is_active_phase c.phase ≡ true → any (blocks c.principal_id c.service_id) cs ≡ false)
    × IsExclusive cs
