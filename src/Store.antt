-- ===== src/Store.antt =====
-- The stores under the data directory (spamallam/app/store).
pub mod Quarantine
pub mod Users
pub mod Audit
pub mod Config
