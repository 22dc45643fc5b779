-- ===== src/Buddy.antt =====
-- alloc/src/buddy.rs: the buddy-block allocator.
pub mod Heap
pub mod Alloc
pub mod Dealloc
pub mod Pages
pub mod Ranges
pub mod Cover
pub mod Split
pub mod Taken
pub mod Allocated
pub mod Searched
pub mod Freed
pub mod Regions
pub mod Blocks
pub mod Added
pub mod Undersized
mod Examples
