-- ===== src/Inference.antt =====
-- Embedding inference: src/semantic/inference.
pub mod Batch
pub mod Isolation
pub mod Whole
mod Tests
