-- ===== src/Pipeline/Headers.antt =====
-- Header blocks and the headers that carry the verdict (spamallam/app/pipeline/headers.py).
pub mod Message
pub mod Verdict
pub mod Lines
pub mod Boundary
pub mod Pattern
pub mod Clean
pub mod Strip
pub mod Signing
pub mod Surrogates
pub mod Encoding
mod Tests
