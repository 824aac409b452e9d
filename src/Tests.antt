-- ===== src/Tests.antt =====
-- Runs of the modelled code on small inputs, and the theorems applied to them.
mod Config
mod Context
mod Core
mod Coordination
mod Occurrences
mod Interactions
mod Manager
mod Pipeline
mod Runtime
mod Policy
mod Pool
mod Scheduler
mod Schedules
mod Security
mod Triggers
mod Workers
mod Workspace
