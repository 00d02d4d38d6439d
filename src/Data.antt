-- ===== src/Data.antt =====
-- Reading the managed projects' data: what the browser of tables may show, and the sweep over a
-- whole table.
pub mod Redact
pub mod Sweep
pub mod Ssrf
pub mod Base64
pub mod DataUrl
pub mod Tabs
