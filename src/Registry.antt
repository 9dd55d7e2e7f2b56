-- ===== src/Registry.antt =====
-- The registry's lifecycle part: src/aipcs_mcp/application/models.py and the SQLite unit of work
-- in src/aipcs_mcp/storage/sqlite/uow.py.
mod Services
mod Tables
mod Claims
mod Admit
mod Completion
mod Finalize
pub mod Updates
pub mod Admitted
pub mod Exclusive
pub mod Replay
pub mod Healthy
pub mod Preparable
mod Columns
pub mod Total
pub mod Admits
pub mod Terminal
pub mod Finalized
pub mod Exclusion
mod Decoded
mod PreparedRow
pub mod Refinalized
mod Recovery
pub mod RecoveryStates
unfoldable pub use Services.*
unfoldable pub use Tables.*
unfoldable pub use Claims.*
unfoldable pub use Admit.*
unfoldable pub use Completion.*
unfoldable pub use Finalize.*
unfoldable pub use Recovery.*
