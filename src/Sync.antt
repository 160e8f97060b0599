-- ===== src/Sync.antt =====
-- src/Sync: the spinlock, the wait group, and the one-shot event.
pub mod Spinlock
pub mod WaitGroup
pub mod Event
