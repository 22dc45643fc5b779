-- ===== src/Semaphore.antt =====
-- maitake-sync/src/semaphore.rs: the counting semaphore and its queue of waiters.
pub mod Queue
pub mod Fill
pub mod Pass
pub mod Batches
pub mod Serve
pub mod Invariant
pub mod Acquiring
pub mod Queued
pub mod Handed
pub mod Closing
pub mod Calls
mod Examples
pub mod Ops
