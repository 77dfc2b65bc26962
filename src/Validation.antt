-- ===== src/Validation.antt =====
-- The explicit validators (codex_work_scheduler/validation.py).
pub mod Fields
pub mod Identifier
pub mod Approvals
pub mod Policies
pub mod Jobs
pub mod Packages
pub mod Snapshots
pub mod Sound
pub mod Current
pub mod Tests
