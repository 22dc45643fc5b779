-- ===== src/LinkedList.antt =====
-- cordyceps/src/list.rs: an intrusive, doubly linked list.
pub mod Store
pub mod Ops
pub mod Chain
pub mod Joined
pub mod Pushed
pub mod Popped
pub mod Removed
pub mod Deque
pub mod Splits
pub mod Walks
pub mod Splitting
pub mod Appended
mod Examples
