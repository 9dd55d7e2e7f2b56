-- ===== src/Manifest.antt =====
-- src/aipcs_mcp/manifest_v2.py: the manifest document and its validators. A value is a document
-- after pydantic has read it: each field has its declared type.
mod Data
mod Names
mod Validate
mod References
mod Whole
mod Snapshot
pub mod Detached
pub mod Acyclic
unfoldable pub use Data.*
unfoldable pub use Names.*
unfoldable pub use Validate.*
unfoldable pub use References.*
unfoldable pub use Whole.*
unfoldable pub use Snapshot.*
