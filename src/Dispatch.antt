-- ===== src/Dispatch.antt =====
-- The dispatcher of one request over its attempts and their candidate providers:
-- internal/providerdispatch (executor.go, prepare.go, attempts.go). Requests are copied shallowly,
-- as the source does: their `Extensions` are cells of a heap, which the copies share.
pub mod Defs
pub mod Executor
pub mod Prepare
pub mod Attempts
pub mod Machine
pub mod Failover
pub mod Reorder
pub mod SharedExtensions
pub mod CopilotMode
