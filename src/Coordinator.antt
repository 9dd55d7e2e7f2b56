-- ===== src/Coordinator.antt =====
-- lifecycle_coordinator.py: one reconciliation attempt for a lifecycle request.
mod Effects
mod Contracts
mod Observe
mod Apply
mod Write
mod Prepare
mod Execute
pub mod Quiet
pub mod Reads
mod Commits
mod Prepared
mod Budget
pub mod Progress
pub mod Answers
unfoldable pub use Effects.*
unfoldable pub use Contracts.*
unfoldable pub use Observe.*
unfoldable pub use Apply.*
unfoldable pub use Write.*
unfoldable pub use Prepare.*
unfoldable pub use Execute.*
