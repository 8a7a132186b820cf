-- ===== src/Tests.antt =====
-- The theorems at concrete inputs, and runs of the definitions.
mod Routing
mod Providers
mod RateLimit
mod Registry
mod ToolArguments
mod VirtualModels
mod Dispatch
mod Affinity
mod Serialization
mod CatalogCache
mod ResponseCache
