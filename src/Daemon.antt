-- ===== src/Daemon.antt =====
-- The daemon's request budgets: src/daemon.
pub mod Deadline
pub mod Pool
mod Tests
mod PoolTests
