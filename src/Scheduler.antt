-- ===== src/Scheduler.antt =====
-- The FIFO scheduler (include/yori/scheduler/scheduler.hpp, src/scheduler/scheduler.cpp).
pub mod Select
pub mod Types
pub mod Queued
pub mod RunOnce
pub mod Required
pub mod Choice
pub mod Window
pub mod Agree
pub mod Outcome
pub mod InMemory
pub mod Names
