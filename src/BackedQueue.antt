-- ===== src/BackedQueue.antt =====
-- packages/octagonal-wheels/src/BackedQueue: the queue over its in-memory backend.
pub mod Memory
pub mod Operations
pub mod Places
pub mod Counts
pub mod Scan
pub mod Views
pub mod Moves
pub mod Fresh
pub mod Settled
pub mod Lost
mod Tests
