-- ===== src/MpscQueue.antt =====
-- cordyceps/src/mpsc_queue.rs: a queue with many producers, and one consumer at a time.
pub mod Queue
pub mod Chain
pub mod Order
pub mod Places
pub mod Fifo
pub mod Consumers
pub mod Alone
mod Examples
