-- ===== src/WaitCell.antt =====
-- maitake-sync/src/wait_cell.rs: a cell for one waker.
pub mod State
pub mod Threads
pub mod Owner
pub mod Inside
pub mod Moves
pub mod Exclusion
pub mod Next
pub mod Delivery
mod Examples
