-- ===== src/Tests/Serialization.antt =====
-- Streams in the dialect of Anthropic: two blocks whose pieces interleave, and the theorems there.
use omnillm.Prelude.{
  index_lookup, index_insert, ◌≡◌, refl, ◌&&◌, true, none, some, List, [], ◌∷◌, ◌++◌, codes,
  text_eq, All,
}
use omnillm.Serialization.Canonical.{
  CanonicalEvent, stream_start, content_delta, block_stop, stream_end, stream_error, text_part,
  tool_call_part, text_delta, tool_arguments_delta, end_turn, failed, tool_use, CanonicalResponse,
}
use omnillm.Serialization.AnthropicState.{AnthropicStreamState, create_anthropic_stream_state}
use omnillm.Serialization.AnthropicMessage.{serialize_to_anthropic, is_tool_use}
use omnillm.Serialization.AnthropicStream.{convert_events, finalize_anthropic_stream}
use omnillm.Serialization.Protocol.{new_client, Accepts}
use omnillm.Serialization.Acceptance.{begun, finished_client}
use omnillm.Serialization.Acceptance
use omnillm.Serialization.ToolUse.{has_tool_call, IsAnthropicCall}
use omnillm.Serialization.ToolUse
use omnillm.Serialization.OpenAiStream.{
  OpenAiStreamState, convert_stop_reason_to_openai, convert_events_to_openai,
  convert_event_to_openai, on_block_delta, on_tool_call, delta_chunks,
}
use omnillm.Serialization.OpenAiClient
use omnillm.Serialization.OpenAiClient.{
  arguments_at, pieces_at, IsOrderly, is_orderly, is_orderly_part,
}
use omnillm.Serialization.OpenAiArguments
use omnillm.Serialization.OpenAiMessage.{
  OpenAiResponse, serialize_to_openai, collect_parts, finish_reason_of,
}
use omnillm.Serialization.OpenAiCalls.{HasCalls}
use omnillm.Serialization.OpenAiCalls

abbrev initial : AnthropicStreamState
unfolding create_anthropic_stream_state
initial = create_anthropic_stream_state

-- Text at index 4 and a tool call at index 7, whose pieces take turns.
abbrev two_blocks : List CanonicalEvent
two_blocks =
    content_delta 4 (some (text_part [])) (some (text_delta (codes "a")))
    ∷ content_delta 7 (some (tool_call_part (codes "call") (codes "read") [])) none
    ∷ content_delta 4 none (some (text_delta (codes "b")))
    ∷ content_delta 7 none (some (tool_arguments_delta (codes "{}")))
    ∷ block_stop 4
    ∷ stream_error (codes "overloaded") (codes "later")
    ∷ []

convert_events-Accepts_example :
    Accepts new_client
      (convert_events
        ((stream_start (codes "m") (codes "x") ∷ two_blocks) ++ stream_end end_turn none none ∷ [])
        initial).0
      (finished_client (begun (codes "m") (codes "x") two_blocks initial).next_content_block_index)
convert_events-Accepts_example =
    Acceptance.convert_events-Accepts (codes "m") (codes "x") two_blocks end_turn none none initial
      (refl, (refl, (refl, (refl, (refl, (refl, tt))))))

finalize_anthropic_stream-Accepts_example :
    Accepts new_client
      ((convert_events (stream_start (codes "m") (codes "x") ∷ two_blocks) initial).0
        ++ (finalize_anthropic_stream failed (begun (codes "m") (codes "x") two_blocks initial)).0)
      (finished_client (begun (codes "m") (codes "x") two_blocks initial).next_content_block_index)
    × ((finalize_anthropic_stream end_turn
          (finalize_anthropic_stream failed (begun (codes "m") (codes "x") two_blocks initial)).1).0
        ≡ [])
finalize_anthropic_stream-Accepts_example =
    Acceptance.finalize_anthropic_stream-Accepts (codes "m") (codes "x") two_blocks failed end_turn
      initial (refl, (refl, (refl, (refl, (refl, (refl, tt))))))

-- A response with a call whose ID is one of another dialect.
abbrev with_call : CanonicalResponse
with_call = record {
  id = codes "r";
  model = codes "x";
  content = text_part (codes "a") ∷ tool_call_part (codes "tooluse_9") (codes "read") [] ∷ [];
  stop_reason = tool_use;
  stopped_at = none;
  usage = none;
}

serialize_to_anthropic-tool_use_example :
    (text_eq (serialize_to_anthropic with_call true).stop_reason (codes "tool_use")
      ≡ (is_tool_use with_call.stop_reason && has_tool_call with_call.content))
    × All IsAnthropicCall (serialize_to_anthropic with_call true).content
serialize_to_anthropic-tool_use_example = ToolUse.serialize_to_anthropic-tool_use with_call true

-- A stream of chat completions: two calls whose arguments take turns.
abbrev two_calls : List CanonicalEvent
two_calls =
    content_delta 1 (some (tool_call_part (codes "x") (codes "read") []))
      (some (tool_arguments_delta []))
    ∷ content_delta 2 (some (tool_call_part (codes "y") (codes "list") [])) none
    ∷ content_delta 1 none (some (tool_arguments_delta (codes "{")))
    ∷ content_delta 2 none (some (tool_arguments_delta (codes "[")))
    ∷ content_delta 1 none (some (tool_arguments_delta (codes "}")))
    ∷ stream_end end_turn none none
    ∷ []

abbrev openai_initial : OpenAiStreamState
openai_initial = record {
  id = codes "c";
  model = codes "m";
  tool_call_index = 0;
  tool_call_index_by_block = [];
  tool_call_id_by_block = [];
}

openai_initial-IsValid : OpenAiClient.IsValid openai_initial
unfolding index_lookup
openai_initial-IsValid = ((λ i n e. cc), (λ i j n e f. cc))

two_calls-IsOrderly : IsOrderly two_calls openai_initial
unfolding is_orderly is_orderly_part convert_event_to_openai on_block_delta on_tool_call
    delta_chunks index_lookup index_insert text_eq
two_calls-IsOrderly = (refl, (refl, (refl, (refl, (refl, (refl, tt))))))

two_calls_index :
    index_lookup 1 (convert_events_to_openai two_calls openai_initial).1.tool_call_index_by_block
    ≡ some 0
unfolding convert_events_to_openai convert_event_to_openai on_block_delta on_tool_call delta_chunks
    index_lookup index_insert text_eq
two_calls_index = refl

arguments_at-pieces_at_example :
    (arguments_at 0 (convert_events_to_openai two_calls openai_initial).0 ≡ pieces_at 1 two_calls)
    × OpenAiClient.IsValid (convert_events_to_openai two_calls openai_initial).1
arguments_at-pieces_at_example =
    OpenAiArguments.arguments_at-pieces_at 1 0 two_calls openai_initial openai_initial-IsValid
      two_calls-IsOrderly two_calls_index

announcement_drops_arguments_example :
    convert_events_to_openai
      (content_delta 1
          (some (tool_call_part (codes "x") (codes "read") []))
          (some (tool_arguments_delta (codes "{}")))
        ∷ two_calls)
      openai_initial
    ≡ convert_events_to_openai
        (content_delta 1
            (some (tool_call_part (codes "x") (codes "read") []))
            (some (tool_arguments_delta []))
          ∷ two_calls)
        openai_initial
unfolding index_lookup text_eq
announcement_drops_arguments_example =
    OpenAiArguments.announcement_drops_arguments 1 (codes "x") (codes "read") [] (codes "{}") []
      two_calls openai_initial refl

abbrev printed : OpenAiResponse
printed = record {
  id = codes "r";
  model = codes "x";
  content = some (codes "a");
  tool_calls = record { id = codes "tooluse_9"; name = codes "read"; arguments = codes "{}" } ∷ [];
  finish_reason = codes "tool_calls";
  usage = none;
}

printed_run : serialize_to_openai (λ args. some (codes "{}")) with_call ≡ some printed
unfolding serialize_to_openai collect_parts finish_reason_of convert_stop_reason_to_openai
printed_run = refl

serialize_to_openai-HasCalls_example : HasCalls (λ args. some (codes "{}")) with_call printed
serialize_to_openai-HasCalls_example =
    OpenAiCalls.serialize_to_openai-HasCalls (λ args. some (codes "{}")) with_call printed
      printed_run
