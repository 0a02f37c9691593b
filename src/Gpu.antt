-- ===== src/Gpu.antt =====
-- GPU identity, observations and leases (include/yori/gpu, src/gpu/gpu_provider.cpp).
pub mod Uuid
pub mod Provider
pub mod Observed
pub mod Names
