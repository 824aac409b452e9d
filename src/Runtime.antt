-- ===== src/Runtime.antt =====
-- src/runtime: how a run moves over the nodes of its pipeline.
pub mod Ready
pub mod Join
pub mod Advance
