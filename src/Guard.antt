-- ===== src/Guard.antt =====
-- The quota guard (codex_work_scheduler/quota_guard.py).
pub mod Signal
pub mod Decide
pub mod Trip
pub mod Overflow
pub mod Raise
pub mod Resume
pub mod Thread
pub mod Threads
pub mod Sessions
pub mod Disarmed
pub mod Moves
mod ThreadTests
mod SessionTests
mod Tests
