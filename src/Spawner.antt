-- ===== src/Spawner.antt =====
-- spawner/: the goroutines that run users, as many as the capacity allows.
pub mod Channel
pub mod Threads
pub mod Groups
pub mod Running
