-- ===== src/ResponseCache.antt =====
-- internal/lib/responsecache: streams of cached responses.
pub mod Types
pub mod Accumulator
pub mod Synthesis
pub mod Blocks
pub mod Replay
pub mod Storing
