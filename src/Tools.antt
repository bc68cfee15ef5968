-- ===== src/Tools.antt =====
-- The tools of the AI (spamallam/app/tools).
pub mod Providers
pub mod Blocking
pub mod Web
pub mod Zones
mod Tests
