-- ===== src/Pipeline/Analyzer.antt =====
-- spamallam/app/pipeline/analyzer.py: scoring, the verdict, and their theorems.
pub mod Base
pub mod Scoring
pub mod Verdict
pub mod Saving
pub mod Outcome
pub mod Deciding
pub mod Quiet
pub mod Process
pub mod Guarantees
pub mod Whitelist
pub mod Threats
pub mod Encodable
pub mod Printable
pub mod Progress
pub mod Decided
