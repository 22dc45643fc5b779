-- ===== src/Timer.antt =====
-- maitake/src/time/timer/wheel.rs: the hierarchical timer wheel.
pub mod Bitmap
pub mod Wheel
pub mod Core
pub mod Total
pub mod Found
pub mod Moved
pub mod Turned
pub mod Conserved
pub mod Cancelled
mod Examples
