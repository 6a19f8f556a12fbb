-- ===== src/History.antt =====
-- Comparison of revisions: src/history.
pub mod SourceDiff
pub mod Correspondence
pub mod Declarations
pub mod Fingerprints
mod Tests
