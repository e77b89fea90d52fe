-- ===== src/SessionRunner.antt =====
-- session_runner.py: the sequential stages of a session, in the children below.
pub mod Effects
pub mod Registry
pub mod Patches
pub mod Initial
pub mod Candidate
pub mod Adjudicator
pub mod Stage
pub mod Output
pub mod Run
