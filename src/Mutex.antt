-- ===== src/Mutex.antt =====
-- maitake-sync/src/mutex.rs: a mutex, as a client of the wait queue.
pub mod Lock
pub mod Polling
pub mod Token
pub mod Given
pub mod Passing
pub mod Locking
pub mod Kept
pub mod Exclusion
mod Examples
