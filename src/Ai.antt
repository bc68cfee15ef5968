-- ===== src/Ai.antt =====
-- The AI analysis (spamallam/app/ai, spamallam/app/providers).
pub mod Loop
pub mod Verdict
mod Tests
