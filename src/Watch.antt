-- ===== src/Watch.antt =====
-- pkg/watch: the watchers that a process runs on a cron schedule.
pub mod Manager
pub mod Registry
pub mod Runner
mod Examples
