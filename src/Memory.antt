-- ===== src/Memory.antt =====
-- What the allocators stand on: powers of two (util/src/math.rs), addresses and regions (hal-core/src).
pub mod Math
pub mod Address
pub mod Region
pub mod Pages
pub mod Ranges
mod Virtual
mod Examples
