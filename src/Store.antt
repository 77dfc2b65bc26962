-- ===== src/Store.antt =====
-- The persistent state (codex_work_scheduler/store.py): its tables and the operations on them.
pub mod GuardRows
pub mod Tables
pub mod Audit
pub mod Chain
pub mod Idempotency
pub mod Replay
pub mod Lease
pub mod Fencing
pub mod Notify
pub mod Guards
pub mod GuardWrites
pub mod GuardFence
pub mod GuardFenced
pub mod GuardChanges
pub mod GuardSteps
pub mod Revisions
pub mod Tests
pub mod GuardTests
