-- ===== src/Scheduler.antt =====
-- src/scheduler.
pub mod JobQueue
pub mod InflightRegistry
pub mod RetryPolicy
pub mod DeadLetterQueue
pub mod Scheduler
