-- ===== src/Job.antt =====
-- Jobs: their specification and its validation, and their state machine (include/yori/job/job.hpp,
-- src/job/job.cpp).
pub mod Spec
pub mod Validate
pub mod State
pub mod Lifecycle
pub mod Names
