-- ===== src/Task.antt =====
-- maitake/src/task/state.rs and the parts of maitake/src/task.rs that drive it.
pub mod Word
pub mod Step
pub mod Cell
pub mod Count
pub mod World
pub mod Lifecycle
mod Examples
