-- ===== src/Lib.antt =====
-- A verification library for the request path of the OmniLLM gateway (Go).
--
-- A request names a model. The gateway resolves the name to attempts, each with candidate provider
-- instances, and dispatches them in order until one succeeds.
--   Routing           internal/lib/modelrouting/modelrouting.go (Names: NormalizeModelName and
--                     ParseProviderPrefix; Providers: resolveProvidersForOperation), internal/database/model_resolution_cache.go
--                     (References, VirtualModelCache) and internal/routes/model_resolution.go
--                     (Resolution): from a model name to attempts. Order and Serving write out
--                     which providers are candidates, and in which order.
--   VirtualModels     internal/lib/virtualmodelrouting/virtualmodelrouting.go: the order of the
--                     upstreams of a virtual model (round-robin, random, priority, weighted).
--   Dispatch          internal/providerdispatch: executor.go (Executor), prepare.go (Prepare) and
--                     attempts.go (Attempts), with the requests of internal/cif/types.go. Machine
--                     has the steps of the failover.
--   Affinity          internal/lib/affinity/affinity.go: the cache that pins a conversation to a
--                     provider instance.
--   RateLimit         internal/lib/ratelimit/ratelimit.go: the critical sections of CheckAndWait and
--                     cancelReservation (Defs), and their interleavings (Runs); a call that sleeps
--                     holds the number of its channel.
--   Registry          internal/registry/registry.go: the methods of the provider registry (Defs) and
--                     the rows that it saves (Saves), with internal/lib/catalogstate.
--   ToolArguments     internal/translation/toolarguments/toolarguments.go: JSON schemas (Schemas), the
--                     calls of a response (Normalize), and the stream (Buffers, Stream).
--   Serialization     internal/serialization/to_anthropic.go: responses (AnthropicMessage) and streams
--                     (AnthropicState, AnthropicStream) in the dialect of Anthropic, with the canonical
--                     forms of internal/cif (Canonical) and what a client accepts (Protocol); and
--                     to_openai.go: chat completions (OpenAiMessage, OpenAiStream).
--   CatalogCache      internal/lib/catalogcache/cache.go: the critical sections of Get (Defs), and their
--                     interleavings (Runs).
--   ResponseCache     internal/lib/responsecache/stream.go: the accumulator that stores a stream
--                     (Accumulator) and the stream that replays a response (Synthesis).
--   Tests             runs of the definitions, and the theorems at concrete inputs.
--
-- State is passed in and out. A mutex-protected method is one step. A Go string is a list of
-- character codes (Prelude.Strings); `strings.ToLower`, `TrimSpace` and `EqualFold` are those of
-- ASCII text. A Go map is an association list (Prelude.Maps). A time is a count of nanoseconds. A
-- Go `int` that may overflow keeps its wrap-around; where it cannot, it is a natural number. The
-- clock, `math/rand` and the handlers and resolvers that a caller passes are arguments. Logging is
-- left out.
--
-- Fuel stands in one place: `flush_rounds`, the outer loop of flushAll, has as much as there are
-- buffers, since each round deletes one. All other loops are recursions on a list. The rows of
-- SQLite queries, `encoding/json` and the order in which Go ranges over a map are arguments.
--
-- Not modelled: the dialects' parsers, the serializer of the Responses dialect, the HTTP clients of the
-- providers, the handlers and the server, the database stores, the keys and stores of the response
-- cache, the derivation of affinity keys, `NextInstanceID`, the command line, and the user
-- interfaces, which are for the most part input and output around what is modelled.
pub mod Prelude
pub mod VirtualModels
pub mod Dispatch
pub mod Affinity
pub mod Routing
pub mod RateLimit
pub mod Registry
pub mod ToolArguments
pub mod ResponseCache
pub mod Serialization
pub mod CatalogCache
mod Tests
