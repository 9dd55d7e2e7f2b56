-- ===== src/Registry/Admits.antt =====
-- `resolve_or_admit` on a request that passes every guard.
use aipcs_mcp.Platform.{Platform}
use aipcs_mcp.Registry.Tables.{Registry}
