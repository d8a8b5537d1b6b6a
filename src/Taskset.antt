-- ===== src/Taskset.antt =====
-- taskset/: tasks, the sets that order them, and the tags that select them.
pub mod Task
pub mod User
pub mod Queue
pub mod Sequential
pub mod Random
pub mod Filter
pub mod Run
pub mod Slices
mod Tests
