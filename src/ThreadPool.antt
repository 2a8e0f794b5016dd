-- ===== src/ThreadPool.antt =====
-- src/synch_thread_pool.h and .cpp: SyncThreadPool, as the steps of its threads. A critical section
-- is one step, `wait` with its predicate included: a thread whose predicate fails is left blocked
-- on its condition variable until a notification, or a spurious wake-up, lets it look again.
pub mod Workers
pub mod Steps
pub mod Invariant
pub mod WorkerSteps
pub mod UserSteps
pub mod Safety
pub mod Counter
mod Tests
