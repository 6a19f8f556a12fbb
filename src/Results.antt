-- ===== src/Results.antt =====
-- Stored result sets and their pages: src/results.
pub mod Page
mod Tests
