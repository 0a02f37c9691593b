-- ===== src/Queue.antt =====
-- The global FIFO queue of waiting jobs (include/yori/queue/job_queue.hpp, src/queue/job_queue.cpp).
pub mod Types
pub mod Operations
pub mod Order
pub mod Sorted
pub mod Invariant
pub mod Restore
pub mod Names
