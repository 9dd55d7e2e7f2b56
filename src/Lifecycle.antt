-- ===== src/Lifecycle.antt =====
-- src/aipcs_mcp/lifecycle.py: requests, intents, observations and the recovery plan.
mod Vocabulary
mod Observation
mod Plan
mod Command
mod Intent
mod Claim
pub mod Recovery
pub mod Planning
pub mod Intents
pub mod Fingerprints
pub use Recovery.{Evidence, Matches, valid_observation, phase_of}
unfoldable pub use Vocabulary.*
unfoldable pub use Observation.*
unfoldable pub use Plan.*
unfoldable pub use Command.*
unfoldable pub use Intent.*
unfoldable pub use Claim.*
