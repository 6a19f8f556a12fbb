-- ===== src/Worker.antt =====
-- The inference worker's bookkeeping: src/semantic/worker.
pub mod Admission
pub mod Scheduler
pub mod LoadRetry
pub mod Frames
pub mod Requests
mod Tests
mod FrameTests
mod RequestTests
