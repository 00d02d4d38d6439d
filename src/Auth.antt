-- ===== src/Auth.antt =====
-- internal/auth: the login limiter, passwords, sessions and the reset by mail.
pub mod Limiter
pub mod Model
pub mod Password
pub mod Accounts
pub mod Session
pub mod Login
pub mod Change
pub mod Register
pub mod Forgot
