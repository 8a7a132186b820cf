-- ===== src/Serialization/OpenAiStream.antt =====
-- to_openai.go: `ConvertCIFEventToOpenAISSE`, the stream in the dialect of chat completions. What is
-- printed as JSON is data; the time of creation is left out.
use omnillm.Prelude.{
  ℕ, zero, suc, ◌+◌, Bool, true, false, Option, none, some, List, [], ◌∷◌, ◌++◌, Text, codes,
  text_eq, index_lookup, index_insert, ℤ, pos, negsuc, if◌then◌else◌,
}
use omnillm.Serialization.Canonical.{
  CanonicalPart, text_part, image_part, thinking_part, tool_call_part, tool_result_part, StopReason,
  end_turn, max_tokens, tool_use, stop_sequence, content_filter, failed, other_reason, Usage,
  CanonicalDelta, text_delta, thinking_delta, tool_arguments_delta, custom_input_delta,
  CanonicalEvent, stream_start, content_delta, block_stop, stream_end, stream_error,
}

-- `OpenAIUsage`; the last field is `PromptTokensDetails`.
pub record OpenAiUsage : Type 0 where
  pub prompt_tokens : ℕ
  pub completion_tokens : ℕ
  pub total_tokens : ℕ
  pub cached_tokens : Option ℕ

-- `openAIUsage` of a usage that is not nil.
unfoldable pub openai_usage : Usage → OpenAiUsage
openai_usage u = record {
  prompt_tokens = u.input_tokens;
  completion_tokens = u.output_tokens;
  total_tokens = u.input_tokens + u.output_tokens;
  cached_tokens = u.cache_read_input_tokens;
}

-- `convertStopReasonToOpenAI`
unfoldable pub convert_stop_reason_to_openai : StopReason → Text
convert_stop_reason_to_openai end_turn = codes "stop"
convert_stop_reason_to_openai max_tokens = codes "length"
convert_stop_reason_to_openai tool_use = codes "tool_calls"
convert_stop_reason_to_openai stop_sequence = codes "stop"
convert_stop_reason_to_openai content_filter = codes "content_filter"
convert_stop_reason_to_openai failed = codes "stop"
convert_stop_reason_to_openai (other_reason r) = codes "stop"

-- The one choice of a chunk: its delta, or the reason to finish.
pub data Choice : Type 0 where
  role : Text → Choice
  content : Text → Choice
  tool_call : ℕ → Text → Text → Choice
  arguments : ℤ → Text → Choice
  finish : Text → Choice

-- What is sent: a chunk with its ID and model, the chunk for the usage, the mark of the end, or an error.
pub data Sent : Type 0 where
  chunk : Text → Text → Choice → Sent
  usage_chunk : Text → Text → OpenAiUsage → Sent
  done : Sent
  error_chunk : Text → Text → Sent

-- `OpenAIStreamState`; `Index` is never read.
pub record OpenAiStreamState : Type 0 where
  pub id : Text
  pub model : Text
  pub tool_call_index : ℕ
  pub tool_call_index_by_block : List (ℕ × ℕ)
  pub tool_call_id_by_block : List (ℕ × Text)

-- `CreateOpenAIStreamState`, with the ID that it makes.
unfoldable pub create_openai_stream_state : Text → OpenAiStreamState
create_openai_stream_state id = record {
  id = id;
  model = [];
  tool_call_index = 0;
  tool_call_index_by_block = [];
  tool_call_id_by_block = [];
}

-- `case cif.CIFStreamStart`
unfoldable pub openai_start : Text → Text → OpenAiStreamState → OpenAiStreamState
openai_start id model s = record {
  id = id;
  model = model;
  tool_call_index = 0;
  tool_call_index_by_block = [];
  tool_call_id_by_block = [];
}

-- A missing key of `ToolCallIDByBlock` reads as the empty ID.
abbrev pub id_or_empty : Option Text → Text
id_or_empty none = []
id_or_empty (some id) = id

-- `state.ToolCallIndex - 1`
abbrev pub index_before : ℕ → ℤ
index_before zero = negsuc 0
index_before (suc n) = pos n

-- The index of the call that a piece of arguments is for.
abbrev pub index_for : Option ℕ → ℕ → ℤ
index_for (some n) next = pos n
index_for none next = index_before next

-- The delta by itself; other deltas send nothing.
unfoldable pub delta_chunks : ℕ → Option CanonicalDelta → OpenAiStreamState → List Sent
delta_chunks i none s = []
delta_chunks i (some (text_delta t)) s = chunk s.id s.model (content t) ∷ []
delta_chunks i (some (thinking_delta t)) s = chunk s.id s.model (content t) ∷ []
delta_chunks i (some (tool_arguments_delta t)) s =
    chunk s.id s.model
      (arguments (index_for (index_lookup i s.tool_call_index_by_block) s.tool_call_index) t)
    ∷ []
delta_chunks i (some (custom_input_delta t)) s = []

-- A piece of arguments that is empty, in an event that announces a call again.
abbrev pub is_empty_piece : Option CanonicalDelta → Bool
is_empty_piece none = false
is_empty_piece (some (tool_arguments_delta [])) = true
is_empty_piece (some (tool_arguments_delta (c ∷ t))) = false
is_empty_piece (some (text_delta t)) = false
is_empty_piece (some (thinking_delta t)) = false
is_empty_piece (some (custom_input_delta t)) = false

-- `case cif.CIFToolCallPart`: a call that its block does not have yet is announced, and the delta of
-- the event is not looked at.
unfoldable pub on_tool_call :
    ℕ → Text → Text → Option CanonicalDelta → OpenAiStreamState → List Sent × OpenAiStreamState
unfolding delta_chunks
on_tool_call i id name delta s =
    if text_eq (id_or_empty (index_lookup i s.tool_call_id_by_block)) id
    then (if is_empty_piece delta then [] else delta_chunks i delta s, s)
    else (
      chunk s.id s.model (tool_call s.tool_call_index id name) ∷ [],
      record s {
        tool_call_index = suc s.tool_call_index;
        tool_call_index_by_block = index_insert i s.tool_call_index s.tool_call_index_by_block;
        tool_call_id_by_block = index_insert i id s.tool_call_id_by_block;
      },
    )

-- `case cif.CIFContentDelta`
unfoldable pub on_block_delta :
    ℕ
    → Option CanonicalPart
    → Option CanonicalDelta
    → OpenAiStreamState
    → List Sent × OpenAiStreamState
unfolding on_tool_call delta_chunks
on_block_delta i (some (tool_call_part id name args)) delta s = on_tool_call i id name delta s
on_block_delta i none delta s = (delta_chunks i delta s, s)
on_block_delta i (some (text_part t)) delta s = (delta_chunks i delta s, s)
on_block_delta i (some (image_part t)) delta s = (delta_chunks i delta s, s)
on_block_delta i (some (thinking_part t g)) delta s = (delta_chunks i delta s, s)
on_block_delta i (some (tool_result_part t)) delta s = (delta_chunks i delta s, s)

abbrev pub usage_chunks : OpenAiStreamState → Option Usage → List Sent
usage_chunks s none = []
usage_chunks s (some u) = usage_chunk s.id s.model (openai_usage u) ∷ []

-- `ConvertCIFEventToOpenAISSE`
unfoldable pub convert_event_to_openai :
    CanonicalEvent → OpenAiStreamState → List Sent × OpenAiStreamState
unfolding openai_start on_block_delta convert_stop_reason_to_openai
convert_event_to_openai (stream_start id model) s =
    (chunk id model (role (codes "assistant")) ∷ [], openai_start id model s)
convert_event_to_openai (content_delta i block delta) s = on_block_delta i block delta s
convert_event_to_openai (block_stop i) s = ([], s)
convert_event_to_openai (stream_end reason stopped_at usage) s = (
  chunk s.id s.model (finish (convert_stop_reason_to_openai reason))
      ∷ (usage_chunks s usage ++ done ∷ []),
  s,
)
convert_event_to_openai (stream_error type message) s = (error_chunk type message ∷ [], s)

-- The events of a stream, one after the other.
unfoldable pub convert_events_to_openai :
    List CanonicalEvent → OpenAiStreamState → List Sent × OpenAiStreamState
unfolding convert_event_to_openai
convert_events_to_openai [] s = ([], s)
convert_events_to_openai (e ∷ es) s =
    let first = convert_event_to_openai e s in
    let rest = convert_events_to_openai es first.1 in (first.0 ++ rest.0, rest.1)
