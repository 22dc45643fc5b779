-- ===== src/Spin.antt =====
-- maitake-sync/src/spin.rs: the spinlock, and the reader-writer spinlock `RwSpinlock` with any number
-- of threads.
pub mod Word
pub mod Threads
pub mod Exclusion
mod Examples
