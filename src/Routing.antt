-- ===== src/Routing.antt =====
-- From the model name of a request to attempts: internal/lib/modelrouting/modelrouting.go,
-- internal/database/model_resolution_cache.go and internal/routes/model_resolution.go.
pub mod Names
pub mod NameLaws
pub mod References
pub mod Matches
pub mod Resolution
pub mod Providers
pub mod Priorities
pub mod Order
pub mod Candidates
pub mod Serving
pub mod Selection
pub mod Pinned
pub mod Coverage
pub mod VirtualModelCache
