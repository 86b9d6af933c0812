-- ===== src/Scheduler.antt =====
-- app/services/scheduler_service.py: the schedule of the background syncs of each user's modules.
pub mod Rows
pub mod Cycle
pub mod Backoff
pub mod Claims
pub mod Refusals
