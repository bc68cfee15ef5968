-- ===== src/Admin.antt =====
-- The admin application (spamallam/app/admin).
pub mod Sessions
pub mod Requests
pub mod Accounts
pub mod Desk
pub mod Forms
