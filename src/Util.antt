-- ===== src/Util.antt =====
-- The package util: locks by name, the expiring cache, and sampling.
pub mod MultiLocker
pub mod Cache
pub mod Sampler
