-- ===== src/Tests.antt =====
-- The theorems at concrete inputs.
mod Requests
mod Plans
mod Runs
mod Operations
