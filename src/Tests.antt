-- ===== src/Tests.antt =====
-- Runs at concrete inputs: the theorems on the server's code, applied.
mod Auth
mod Forgot
mod Access
mod Users
mod Runtime
mod Gate
mod Data
mod Projects
mod Proxy
mod Scheduler
mod Notifications
mod Health
mod Images
mod Machines
mod Backups
