-- ===== src/Relational.antt =====
-- src/aipcs_mcp/relational.py: the relational shape of a manifest, and which changes of it are
-- additive.
mod Data
mod Shape
mod Compile
mod Additions
mod Metadata
mod Classify
pub mod Acyclic
mod Extension
pub mod Transition
unfoldable pub use Data.*
unfoldable pub use Shape.*
unfoldable pub use Compile.*
unfoldable pub use Additions.*
unfoldable pub use Metadata.*
unfoldable pub use Classify.*
