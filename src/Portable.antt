-- ===== src/Portable.antt =====
-- src/aipcs_mcp/application/registry_authority.py: the export, import and purge of a service.
mod Command
mod Intent
mod Completion
pub mod Prepared
pub mod Fingerprints
pub mod Completed
unfoldable pub use Command.*
unfoldable pub use Intent.*
unfoldable pub use Completion.*
