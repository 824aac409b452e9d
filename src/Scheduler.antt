-- ===== src/Scheduler.antt =====
-- src/scheduler/scheduler.cpp: cron expressions, timestamps, schedules and triggers.
pub mod Cron
pub mod Clock
pub mod Schedules
pub mod Store
pub mod Launch
pub mod Process
pub mod Admin
pub mod Triggers
pub mod TriggerRows
pub mod Deliver
