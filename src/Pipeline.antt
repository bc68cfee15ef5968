-- ===== src/Pipeline.antt =====
-- The per-message pipeline (spamallam/app/pipeline).
pub mod Headers
pub mod Failure
pub mod Overrides
pub mod Rspamd
pub mod Settings
pub mod Body
pub mod Sanitize
pub mod Run
pub mod Analyzer
pub mod Tests
