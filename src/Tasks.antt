-- ===== src/Tasks.antt =====
-- resourcey/tasks: cron schedules and the scheduler.
pub mod Calendar
pub mod Cron
pub mod Scheduler
