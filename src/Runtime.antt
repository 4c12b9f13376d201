-- ===== src/Runtime.antt =====
-- pherix/core/runtime.py
pub mod State
pub mod Record
pub mod Keeps
pub mod Unwind
pub mod Commit
pub mod Containment
pub mod Gate
pub mod Closed
pub mod Restore
