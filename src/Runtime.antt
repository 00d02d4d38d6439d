-- ===== src/Runtime.antt =====
-- internal/runtime: cron expressions, ports, shared services and the scheduler of tasks.
pub mod Cron
pub mod Ports
pub mod Services
pub mod Processes
pub mod Health
pub mod Proxy
pub mod Scheduler
