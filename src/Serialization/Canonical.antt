-- ===== src/Serialization/Canonical.antt =====
-- cif/types.go and cif/prompt_cache.go: canonical responses and stream events, as the serializers
-- read them. Indices and token counts are not negative.
use omnillm.Prelude.{ℕ, ◌-◌, Option, none, some, List, Text}
use omnillm.ToolArguments.Schemas.{Json}

-- `CIFContentPart`
pub data CanonicalPart : Type 0 where
  text_part : Text → CanonicalPart
  image_part : Text → CanonicalPart
  thinking_part : Text → Option Text → CanonicalPart
  tool_call_part : Text → Text → List (Text × Json) → CanonicalPart
  tool_result_part : Text → CanonicalPart

-- `CIFStopReason`; any other string is `other_reason`.
pub data StopReason : Type 0 where
  end_turn max_tokens tool_use stop_sequence content_filter failed : StopReason
  other_reason : Text → StopReason

-- `CIFUsage`
pub record Usage : Type 0 where
  pub input_tokens : ℕ
  pub output_tokens : ℕ
  pub uncached_input_tokens : Option ℕ
  pub cache_read_input_tokens : Option ℕ
  pub cache_write_input_tokens : Option ℕ
  pub cache_write5m_input_tokens : Option ℕ
  pub cache_write1h_input_tokens : Option ℕ

-- `CanonicalResponse`
pub record CanonicalResponse : Type 0 where
  pub id : Text
  pub model : Text
  pub content : List CanonicalPart
  pub stop_reason : StopReason
  pub stopped_at : Option Text
  pub usage : Option Usage

-- `DeltaContent`
pub data CanonicalDelta : Type 0 where
  text_delta : Text → CanonicalDelta
  thinking_delta : Text → CanonicalDelta
  tool_arguments_delta : Text → CanonicalDelta
  custom_input_delta : Text → CanonicalDelta

-- `CIFStreamEvent`
pub data CanonicalEvent : Type 0 where
  stream_start : Text → Text → CanonicalEvent
  content_delta : ℕ → Option CanonicalPart → Option CanonicalDelta → CanonicalEvent
  block_stop : ℕ → CanonicalEvent
  stream_end : StopReason → Option Text → Option Usage → CanonicalEvent
  stream_error : Text → Text → CanonicalEvent

-- `*p`, where a nil pointer counts nothing.
abbrev pub or_zero : Option ℕ → ℕ
or_zero none = 0
or_zero (some n) = n

-- `AnthropicUncachedInput` of a usage that is not nil; the difference stops at 0, as in the source.
unfoldable pub anthropic_uncached_input : Usage → ℕ
anthropic_uncached_input u = elim u.uncached_input_tokens [
  | some n ↦ n
  | none ↦ u.input_tokens - or_zero u.cache_read_input_tokens - or_zero u.cache_write_input_tokens
]
