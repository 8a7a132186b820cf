-- ===== src/Serialization/AnthropicStream.antt =====
-- to_anthropic.go: `ConvertCIFEventToAnthropicSSE` and `FinalizeAnthropicStream`.
use omnillm.Prelude.{
  ℕ, suc, Bool, true, false, not, ◌&&◌, Option, none, some, List, [], ◌∷◌, ◌++◌, ◌==◌, index_lookup,
  if◌then◌else◌,
}
use omnillm.Serialization.AnthropicMessage.{
  AnthropicUsage, anthropic_usage, convert_stop_reason_to_anthropic,
}
use omnillm.Serialization.AnthropicState.{
  BlockType, block_type_eq, get_block_type, BlockStart, create_block_start, text_piece,
  thinking_piece, json_piece, AnthropicEvent, message_start, content_block_start,
  content_block_delta, content_block_stop, message_delta, message_stop, error_event, OpenBlock,
  AnthropicStreamState, open_block, close_block, close_all,
}
use omnillm.Serialization.Canonical.{
  CanonicalPart, text_part, image_part, thinking_part, tool_call_part, tool_result_part, StopReason,
  CanonicalDelta, text_delta, thinking_delta, tool_arguments_delta, custom_input_delta,
  CanonicalEvent, stream_start, content_delta, block_stop, stream_end, stream_error,
}

abbrev pub Converted : Type 0
Converted = List AnthropicEvent × AnthropicStreamState

-- `case cif.CIFStreamStart`
unfoldable pub start_message : AnthropicStreamState → AnthropicStreamState
start_message s = record {
  message_start_sent = true;
  next_content_block_index = 0;
  content_block_open = false;
  current_provider_idx = none;
  current_anthropic_idx = none;
  current_block_type = none;
  suppress_thinking_blocks = s.suppress_thinking_blocks;
  suppressed_provider_idx = none;
  suppression_active = false;
  open_blocks = [];
  open_order = [];
}

abbrev pub is_thinking_block : Option CanonicalPart → Bool
is_thinking_block none = false
is_thinking_block (some (thinking_part t s)) = true
is_thinking_block (some (text_part t)) = false
is_thinking_block (some (image_part t)) = false
is_thinking_block (some (tool_call_part id name arguments)) = false
is_thinking_block (some (tool_result_part t)) = false

abbrev pub is_thinking_delta : Option CanonicalDelta → Bool
is_thinking_delta none = false
is_thinking_delta (some (thinking_delta t)) = true
is_thinking_delta (some (text_delta t)) = false
is_thinking_delta (some (tool_arguments_delta t)) = false
is_thinking_delta (some (custom_input_delta t)) = false

abbrev pub is_index : Option ℕ → ℕ → Bool
is_index none i = false
is_index (some j) i = j == i

-- The guard on thinking blocks that are suppressed: the event is dropped (`none`), or goes on.
unfoldable pub suppress :
    ℕ
    → Option CanonicalPart
    → Option CanonicalDelta
    → AnthropicStreamState
    → Bool × AnthropicStreamState
suppress i block delta s =
    if not s.suppress_thinking_blocks
    then (false, s)
    else if is_thinking_block block
    then (true, record s { suppressed_provider_idx = some i; suppression_active = true })
    else if s.suppression_active && is_index s.suppressed_provider_idx i
    then (if is_thinking_delta delta
        then (true, s)
        else (false, record s { suppressed_provider_idx = none; suppression_active = false }))
    else (false, s)

abbrev pub start_events : ℕ → Option BlockStart → List AnthropicEvent
start_events i none = []
start_events i (some b) = content_block_start i b ∷ []

-- A block of a type is announced, behind what was sent for the index.
unfoldable pub announce_block : ℕ → CanonicalPart → BlockType → AnthropicStreamState → Converted
unfolding open_block
announce_block i part t s =
    let idx = s.next_content_block_index in
    (
      start_events idx (create_block_start part),
      open_block i idx t (record s { next_content_block_index = suc idx }),
    )

-- The announcement, by the block that is open for the index.
unfoldable pub on_part :
    ℕ → CanonicalPart → BlockType → Option OpenBlock → AnthropicStreamState → Converted
unfolding announce_block close_block
on_part i part t none s = announce_block i part t s
on_part i part t (some existing) s =
    if block_type_eq existing.block_type t
    then ([], s)
    else (let announced = announce_block i part t (close_block i s) in
        (content_block_stop existing.anthropic_idx ∷ announced.0, announced.1))

-- A delta for the block of its index; other deltas send nothing.
unfoldable pub delta_events : OpenBlock → Option CanonicalDelta → List AnthropicEvent
delta_events target none = []
delta_events target (some (text_delta t)) =
    content_block_delta target.anthropic_idx (text_piece t) ∷ []
delta_events target (some (thinking_delta t)) =
    content_block_delta target.anthropic_idx (thinking_piece t) ∷ []
delta_events target (some (tool_arguments_delta t)) =
    content_block_delta target.anthropic_idx (json_piece t) ∷ []
delta_events target (some (custom_input_delta t)) = []

-- The delta is sent if its index has an open block.
unfoldable pub routed_events : Option OpenBlock → Option CanonicalDelta → List AnthropicEvent
unfolding delta_events
routed_events none delta = []
routed_events (some target) delta = delta_events target delta

-- Behind the announcement.
unfoldable pub route_delta : ℕ → Option CanonicalDelta → Converted → Converted
unfolding routed_events
route_delta i delta (events, s) = (events ++ routed_events (index_lookup i s.open_blocks) delta, s)

-- The block part of a content delta, by its block type.
unfoldable pub on_typed :
    ℕ → CanonicalPart → Option BlockType → Option CanonicalDelta → AnthropicStreamState → Converted
unfolding on_part route_delta
on_typed i part none delta s = ([], s)
on_typed i part (some t) delta s =
    route_delta i delta (on_part i part t (index_lookup i s.open_blocks) s)

-- A content delta that is not suppressed.
unfoldable pub on_content :
    ℕ → Option CanonicalPart → Option CanonicalDelta → AnthropicStreamState → Converted
unfolding on_typed route_delta get_block_type
on_content i none delta s = route_delta i delta ([], s)
on_content i (some part) delta s = on_typed i part (get_block_type part) delta s

-- `case cif.CIFContentBlockStop`, by the block of the index.
unfoldable pub on_block_stop : ℕ → Option OpenBlock → AnthropicStreamState → Converted
unfolding close_block
on_block_stop i none s = ([], s)
on_block_stop i (some blk) s = (content_block_stop blk.anthropic_idx ∷ [], close_block i s)

-- `ConvertCIFEventToAnthropicSSE`. Of the usage only the output and cache tokens are sent.
unfoldable pub convert_event : CanonicalEvent → AnthropicStreamState → Converted
unfolding start_message suppress on_content on_block_stop close_all
convert_event (stream_start id model) s = (message_start id model ∷ [], start_message s)
convert_event (content_delta i block delta) s =
    let (dropped, s') = suppress i block delta s in
    if dropped then ([], s') else on_content i block delta s'
convert_event (block_stop i) s = on_block_stop i (index_lookup i s.open_blocks) s
convert_event (stream_end reason stopped_at usage) s =
    let closed = close_all s in
    (
      closed.0
          ++ message_delta (convert_stop_reason_to_anthropic reason) stopped_at
              (elim usage [ none ↦ none | some u ↦ some (anthropic_usage u) ])
            ∷ message_stop
            ∷ [],
      closed.1,
    )
convert_event (stream_error type message) s = (error_event type message ∷ [], s)

-- The events of a stream, one after the other.
unfoldable pub convert_events : List CanonicalEvent → AnthropicStreamState → Converted
unfolding convert_event
convert_events [] s = ([], s)
convert_events (e ∷ es) s =
    let first = convert_event e s in
    let rest = convert_events es first.1 in (first.0 ++ rest.0, rest.1)

-- `{"output_tokens": 0}`: as of every usage, only the output tokens and the cache tokens are sent.
abbrev pub zero_usage : AnthropicUsage
zero_usage = record {
  input_tokens = 0;
  output_tokens = 0;
  cache_creation_input_tokens = none;
  cache_read_input_tokens = none;
  cache_creation = none;
}

-- `FinalizeAnthropicStream`
unfoldable pub finalize_anthropic_stream : StopReason → AnthropicStreamState → Converted
unfolding close_all
finalize_anthropic_stream reason s =
    if not s.message_start_sent
    then ([], s)
    else (let closed = close_all s in
        (
          closed.0
              ++ message_delta (convert_stop_reason_to_anthropic reason) none (some zero_usage)
                ∷ message_stop
                ∷ [],
          record closed.1 { message_start_sent = false },
        ))
