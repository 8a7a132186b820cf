-- ===== src/Affinity.antt =====
-- Channel affinity: internal/lib/affinity/affinity.go. The map from conversation keys to provider
-- instances, with its order of insertion, its expiry and its eviction.
pub mod Cache
pub mod Bounds
pub mod Pins
