-- ===== src/CatalogCache.antt =====
-- internal/lib/catalogcache/cache.go: the cache of the providers' model catalogs.
pub mod Defs
pub mod Runs
pub mod Backing
pub mod Steps
pub mod Provenance
