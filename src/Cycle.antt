-- ===== src/Cycle.antt =====
-- `_has_directed_cycle` of src/aipcs_mcp/relational.py, a depth-first search with two sets of
-- marks; manifest_v2.py has the same search over an adjacency of its own.
mod Search
mod Cases
mod Sound
mod Complete
mod Fuel
pub mod Correct
unfoldable pub use Search.*
pub use Correct.{IsSearchable, has_directed_cycle-iff-Walk}
