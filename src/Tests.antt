-- ===== src/Tests.antt =====
-- Concrete runs, and the theorems applied to them.
mod Data
mod Jobs
mod Stores
mod Queues
mod Rounds
mod Recoveries
mod Messages
mod Services
