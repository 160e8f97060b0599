-- ===== src/Scheduling.antt =====
-- src/Scheduling: the blocking queue and the thread pool that runs on it.
pub mod Queue
pub mod ThreadPool
