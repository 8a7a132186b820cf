-- ===== src/Registry.antt =====
-- internal/registry/registry.go: the registry of provider instances, and
-- internal/lib/catalogstate/state.go: the versions of their catalogs.
pub mod Defs
pub mod Saves
pub mod Valid
pub mod Primary
