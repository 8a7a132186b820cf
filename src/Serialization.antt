-- ===== src/Serialization.antt =====
-- internal/serialization/to_anthropic.go: responses and streams in the dialect of Anthropic.
pub mod Canonical
pub mod AnthropicMessage
pub mod AnthropicState
pub mod AnthropicStream
pub mod Protocol
pub mod OpenBlocks
pub mod Tracking
pub mod Acceptance
pub mod ToolUse
pub mod OpenAiStream
pub mod OpenAiMessage
pub mod OpenAiCalls
pub mod OpenAiClient
pub mod OpenAiSteps
pub mod OpenAiArguments
