-- ===== src/Store.antt =====
-- The state store: its records, the mutation core and the in-memory adapter (src/store,
-- src/testing/in_memory_state_store.cpp).
pub mod Types
pub mod Execution
pub mod Allowed
pub mod Mutation
pub mod Memory
pub mod Names
