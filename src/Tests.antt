-- ===== src/Tests.antt =====
-- Runs of the models at concrete inputs, and the theorems at such inputs.
pub mod Gates
pub mod Session
pub mod V2
pub mod Jobs
pub mod Bundles
pub mod Events
pub mod Queue
