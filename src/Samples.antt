-- ===== src/Samples.antt =====
-- The samples of the tests.
mod Manifests
mod Requests
mod Worlds
pub use Manifests.*
pub use Requests.*
pub use Worlds.*
