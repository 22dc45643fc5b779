-- ===== src/Bitfield.antt =====
-- bitfield/src/pack.rs: packing values into ranges of bits.
pub mod Word
pub mod Pack
pub mod Digits
pub mod Spec
pub mod Parts
pub mod Packed
pub mod Next
pub mod Full
pub mod Pair
pub mod Moving
mod Examples
