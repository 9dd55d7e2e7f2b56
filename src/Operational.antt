-- ===== src/Operational.antt =====
-- src/aipcs_mcp/application/operational_lifecycle.py: suspend, resume, archive and restore.
mod Command
mod Intent
pub mod Matrix
pub mod Prepared
unfoldable pub use Command.*
unfoldable pub use Intent.*
