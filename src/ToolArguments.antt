-- ===== src/ToolArguments.antt =====
-- internal/translation/toolarguments/toolarguments.go: the arguments of completed tool calls, against
-- the schemas of the tools.
pub mod Schemas
pub mod Normalize
pub mod Omissions
pub mod Buffers
pub mod Stream
pub mod Forwarding
pub mod Flushing
pub mod Preservation
