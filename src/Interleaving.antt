-- ===== src/Interleaving.antt =====
-- Requests that overlap in time. Each has a transaction of its own, which runs the statements of one
-- method of the services; between two statements any other transaction may run.
pub mod Points
pub mod Statements
pub mod Writes
pub mod Steps
pub mod Facts
pub mod Atomic
pub mod Refusal
pub mod Learning
pub mod Frame
pub mod Commit
pub mod Keys
pub mod Fresh
pub mod Stable
pub mod Locks
pub mod Invariant
pub mod Safety
