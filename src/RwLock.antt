-- ===== src/RwLock.antt =====
-- maitake-sync/src/rwlock.rs: the readers-writer lock, a client of the semaphore.
pub mod Lock
pub mod Places
pub mod Sharing
pub mod Balance
pub mod Kept
pub mod Resumed
pub mod Ended
pub mod Reached
pub mod Exclusion
mod Examples
