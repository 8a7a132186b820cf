-- ===== src/Serialization/AnthropicMessage.antt =====
-- to_anthropic.go: a whole response, `SerializeToAnthropicWithSuppression`.
use omnillm.Prelude.{
  ℕ, Bool, true, false, not, ◌&&◌, Option, none, some, List, [], ◌∷◌, ◌++◌, Text, codes, text_eq,
  trim_space, has_prefix, drop, if◌then◌else◌,
}
use omnillm.Serialization.Canonical.{
  CanonicalPart, text_part, image_part, thinking_part, tool_call_part, tool_result_part, StopReason,
  end_turn, max_tokens, tool_use, stop_sequence, content_filter, failed, other_reason, Usage,
  CanonicalResponse, or_zero, anthropic_uncached_input,
}
use omnillm.ToolArguments.Schemas.{Json}

-- `AnthropicContentBlock`, by its type.
pub data AnthropicBlock : Type 0 where
  text_block : Text → AnthropicBlock
  thinking_block : Text → Option Text → AnthropicBlock
  tool_use_block : Text → Text → List (Text × Json) → AnthropicBlock

-- `AnthropicUsage`; the last field is `CacheCreation`, its 5 minute and its 1 hour part.
pub record AnthropicUsage : Type 0 where
  pub input_tokens : ℕ
  pub output_tokens : ℕ
  pub cache_creation_input_tokens : Option ℕ
  pub cache_read_input_tokens : Option ℕ
  pub cache_creation : Option (ℕ × ℕ)

-- `AnthropicResponse`
pub record AnthropicResponse : Type 0 where
  pub id : Text
  pub model : Text
  pub content : List AnthropicBlock
  pub stop_reason : Text
  pub stop_sequence : Option Text
  pub usage : Option AnthropicUsage

abbrev pub cache_creation_of : Option ℕ → Option ℕ → Option (ℕ × ℕ)
cache_creation_of none none = none
cache_creation_of none (some h) = some (0, h)
cache_creation_of (some m) h = some (m, or_zero h)

-- `anthropicUsage` of a usage that is not nil.
unfoldable pub anthropic_usage : Usage → AnthropicUsage
unfolding anthropic_uncached_input
anthropic_usage u = record {
  input_tokens = anthropic_uncached_input u;
  output_tokens = u.output_tokens;
  cache_creation_input_tokens = u.cache_write_input_tokens;
  cache_read_input_tokens = u.cache_read_input_tokens;
  cache_creation = cache_creation_of u.cache_write5m_input_tokens u.cache_write1h_input_tokens;
}

-- `normalizeAnthropicToolUseID`
unfoldable pub normalize_anthropic_tool_use_id : Text → Text
normalize_anthropic_tool_use_id id =
    let trimmed = trim_space id in
    if text_eq trimmed []
    then codes "toolu_empty"
    else if has_prefix trimmed (codes "toolu_")
    then trimmed
    else if has_prefix trimmed (codes "tooluse_")
    then codes "toolu_" ++ drop 8 trimmed
    else codes "toolu_" ++ trimmed

-- `convertStopReasonToAnthropic`
unfoldable pub convert_stop_reason_to_anthropic : StopReason → Text
convert_stop_reason_to_anthropic end_turn = codes "end_turn"
convert_stop_reason_to_anthropic max_tokens = codes "max_tokens"
convert_stop_reason_to_anthropic tool_use = codes "tool_use"
convert_stop_reason_to_anthropic stop_sequence = codes "stop_sequence"
convert_stop_reason_to_anthropic content_filter = codes "content_filter"
convert_stop_reason_to_anthropic failed = codes "error"
convert_stop_reason_to_anthropic (other_reason r) = codes "end_turn"

-- The loop over the parts; parts of other types are dropped.
unfoldable pub anthropic_content : Bool → List CanonicalPart → List AnthropicBlock
unfolding normalize_anthropic_tool_use_id
anthropic_content suppress [] = []
anthropic_content suppress (text_part t ∷ parts) = text_block t ∷ anthropic_content suppress parts
anthropic_content suppress (tool_call_part id name arguments ∷ parts) =
    tool_use_block (normalize_anthropic_tool_use_id id) name arguments
    ∷ anthropic_content suppress parts
anthropic_content suppress (thinking_part t signature ∷ parts) =
    let rest = anthropic_content suppress parts in
    if suppress then rest else thinking_block t signature ∷ rest
anthropic_content suppress (image_part t ∷ parts) = anthropic_content suppress parts
anthropic_content suppress (tool_result_part t ∷ parts) = anthropic_content suppress parts

-- `anthropicContentHasToolUse`
unfoldable pub anthropic_content_has_tool_use : List AnthropicBlock → Bool
anthropic_content_has_tool_use [] = false
anthropic_content_has_tool_use (tool_use_block id name arguments ∷ blocks) = true
anthropic_content_has_tool_use (text_block t ∷ blocks) = anthropic_content_has_tool_use blocks
anthropic_content_has_tool_use (thinking_block t s ∷ blocks) = anthropic_content_has_tool_use blocks

-- The reason is `tool_use`.
abbrev pub is_tool_use : StopReason → Bool
is_tool_use tool_use = true
is_tool_use end_turn = false
is_tool_use max_tokens = false
is_tool_use stop_sequence = false
is_tool_use content_filter = false
is_tool_use failed = false
is_tool_use (other_reason r) = false

-- `SerializeToAnthropicWithSuppression`
unfoldable pub serialize_to_anthropic : CanonicalResponse → Bool → AnthropicResponse
unfolding anthropic_content anthropic_content_has_tool_use convert_stop_reason_to_anthropic
    anthropic_usage
serialize_to_anthropic r suppress =
    let content = anthropic_content suppress r.content in
    record {
      id = r.id;
      model = r.model;
      content = content;
      stop_reason =
          if not (anthropic_content_has_tool_use content) && is_tool_use r.stop_reason
          then convert_stop_reason_to_anthropic end_turn
          else convert_stop_reason_to_anthropic r.stop_reason;
      stop_sequence = r.stopped_at;
      usage = elim r.usage [ none ↦ none | some u ↦ some (anthropic_usage u) ];
    }
