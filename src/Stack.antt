-- ===== src/Stack.antt =====
-- cordyceps/src/stack.rs: a stack that threads push to, and whose nodes are taken all at once.
pub mod Node
pub mod Threads
pub mod Linked
pub mod Contents
pub mod Popping
mod Examples
