-- ===== src/WaitQueue.antt =====
-- maitake-sync/src/wait_queue.rs: a queue of tasks that wait for a notification.
pub mod Queue
pub mod Ops
pub mod Drain
pub mod Trying
pub mod Inv
pub mod Notified
pub mod Waking
pub mod Removal
pub mod Handing
pub mod Draining
pub mod WakeAll
pub mod Enqueued
pub mod Polls
pub mod Steps
pub mod Keeping
pub mod Reached
pub mod Missed
mod Examples
