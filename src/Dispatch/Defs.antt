-- ===== src/Dispatch/Defs.antt =====
-- The types that the dispatcher works on: `CanonicalRequest` and `Extensions` of
-- internal/cif/types.go, the interfaces of internal/providers/types/types.go as far as dispatch
-- calls them, and the types of internal/providerdispatch. `B` holds the fields of a request that
-- dispatch never reads.
use omnillm.Prelude.{ℕ, Bool, Option, none, Text, ◌==◌, if◌then◌else◌}

-- `cif.Extensions`; a pointer to a flag is an `Option`.
pub record Extensions : Type 0 where
  pub thinking_budget_tokens : Option ℕ
  pub inbound_api_shape : Option Text
  pub requires_dummy_tool_injection : Option Bool
  pub force_chat_completions : Option Bool
  pub disable_auth_retry : Option Bool
  pub disable_streaming_fallback : Option Bool

-- `&cif.Extensions{}`
unfoldable pub empty_extensions : Extensions
empty_extensions = record {
  thinking_budget_tokens = none;
  inbound_api_shape = none;
  requires_dummy_tool_injection = none;
  force_chat_completions = none;
  disable_auth_retry = none;
  disable_streaming_fallback = none;
}

-- The heap of `Extensions` cells; the cells from `next` on are free.
pub record Heap : Type 0 where
  pub cell : ℕ → Extensions
  pub next : ℕ

unfoldable pub write : ℕ → Extensions → Heap → Heap
write p e h = record h { cell = λ q. if p == q then e else h.cell q }

-- `CanonicalRequest`, with the pointer to its extensions.
pub record Request (B : Type 0) : Type 0 where
  pub model : Text
  pub stream : Bool
  pub extensions : Option ℕ
  pub body : B

-- `types.ProviderAdapter`; `upstream_api` is there if the adapter implements
-- `upstreamAPIReporter`.
pub record Adapter (B : Type 0) : Type 0 where
  pub remap_model : Text → Text
  pub upstream_api : Option (Heap → Request B → Text → Text)

-- `types.Provider`; `is_responses_only_model` is there if the provider implements
-- `copilotResponsesOnlyChecker`.
pub record Provider (B : Type 0) : Type 0 where
  pub id : Text
  pub instance_id : Text
  pub is_responses_only_model : Option (Text → Bool)
  pub adapter : Option (Adapter B)

pub record Candidate (B : Type 0) : Type 0 where
  pub provider : Provider B
  pub adapter : Adapter B
  pub request : Request B
  pub canonical_model : Text
  pub upstream_model : Text
  pub upstream_api : Text

pub record PreparedCandidate (B : Type 0) : Type 0 where
  pub candidate : Candidate B
  pub provider_id : Text

pub record Attempt : Type 0 where
  pub requested_model : Text
  pub normalized_model : Text
  pub provider_id : Text
  pub only_if_previous_unavailable : Bool

-- What a resolver may report: `systemone.ErrUnsupported`, or another error.
pub data ResolveError : Type 0 where
  unsupported : ResolveError
  failed : Text → ResolveError

pub data PrepareError : Type 0 where
  request_is_nil resolve_is_nil : PrepareError
  resolve_error : ResolveError → PrepareError

pub data BuildError : Type 0 where
  provider_is_nil : BuildError
  no_adapter : Text → BuildError

pub data Result (E A : Type 0) : Type 0 where
  ok : A → Result E A
  err : E → Result E A
