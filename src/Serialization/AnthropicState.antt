-- ===== src/Serialization/AnthropicState.antt =====
-- to_anthropic.go: `AnthropicStreamState`, the open blocks of a stream, and its events.
use omnillm.Prelude.{
  ℕ, Bool, true, false, not, Option, none, some, List, [], ◌∷◌, ◌++◌, Text, ◌==◌, is_some,
  index_lookup, index_insert, index_delete, if◌then◌else◌,
}
use omnillm.Serialization.AnthropicMessage.{AnthropicUsage, normalize_anthropic_tool_use_id}
use omnillm.Serialization.Canonical.{
  CanonicalPart, text_part, image_part, thinking_part, tool_call_part, tool_result_part,
}

-- The block types of `getBlockType`.
pub data BlockType : Type 0 where
  text_type thinking_type tool_call_type : BlockType

unfoldable pub block_type_eq : BlockType → BlockType → Bool
block_type_eq text_type text_type = true
block_type_eq thinking_type thinking_type = true
block_type_eq tool_call_type tool_call_type = true
block_type_eq _ _ = false

-- `getBlockType`; the empty string is `none`.
unfoldable pub get_block_type : CanonicalPart → Option BlockType
get_block_type (text_part t) = some text_type
get_block_type (thinking_part t s) = some thinking_type
get_block_type (tool_call_part id name arguments) = some tool_call_type
get_block_type (image_part t) = none
get_block_type (tool_result_part t) = none

-- What a `content_block_start` announces: an empty block, or a call of a tool with its ID and name.
pub data BlockStart : Type 0 where
  text_start thinking_start : BlockStart
  tool_use_start : Text → Text → BlockStart

-- `createContentBlockStartEvent`, without its index.
unfoldable pub create_block_start : CanonicalPart → Option BlockStart
create_block_start (text_part t) = some text_start
create_block_start (thinking_part t s) = some thinking_start
create_block_start (tool_call_part id name arguments) =
    some (tool_use_start (normalize_anthropic_tool_use_id id) name)
create_block_start (image_part t) = none
create_block_start (tool_result_part t) = none

-- The `delta` of a `content_block_delta`.
pub data BlockDelta : Type 0 where
  text_piece : Text → BlockDelta
  thinking_piece : Text → BlockDelta
  json_piece : Text → BlockDelta

-- The events that are sent: the maps of the source, by their type.
pub data AnthropicEvent : Type 0 where
  message_start : Text → Text → AnthropicEvent
  content_block_start : ℕ → BlockStart → AnthropicEvent
  content_block_delta : ℕ → BlockDelta → AnthropicEvent
  content_block_stop : ℕ → AnthropicEvent
  message_delta : Text → Option Text → Option AnthropicUsage → AnthropicEvent
  message_stop : AnthropicEvent
  error_event : Text → Text → AnthropicEvent

-- `anthropicOpenBlock`
pub record OpenBlock : Type 0 where
  pub anthropic_idx : ℕ
  pub block_type : BlockType

-- `AnthropicStreamState`; the index -1 is `none`, and so is the empty block type.
pub record AnthropicStreamState : Type 0 where
  pub message_start_sent : Bool
  pub next_content_block_index : ℕ
  pub content_block_open : Bool
  pub current_provider_idx : Option ℕ
  pub current_anthropic_idx : Option ℕ
  pub current_block_type : Option BlockType
  pub suppress_thinking_blocks : Bool
  pub suppressed_provider_idx : Option ℕ
  pub suppression_active : Bool
  pub open_blocks : List (ℕ × OpenBlock)
  pub open_order : List ℕ

-- `CreateAnthropicStreamState`
unfoldable pub create_anthropic_stream_state : AnthropicStreamState
create_anthropic_stream_state = record {
  message_start_sent = false;
  next_content_block_index = 0;
  content_block_open = false;
  current_provider_idx = none;
  current_anthropic_idx = none;
  current_block_type = none;
  suppress_thinking_blocks = false;
  suppressed_provider_idx = none;
  suppression_active = false;
  open_blocks = [];
  open_order = [];
}

abbrev pub is_empty {ℓ} : {A : Type ℓ} → List A → Bool
is_empty [] = true
is_empty (x ∷ xs) = false

-- `syncCurrent(-1, -1, "")`
unfoldable pub sync_closed : AnthropicStreamState → AnthropicStreamState
sync_closed s =
    let open_now = not (is_empty s.open_blocks) in
    if is_empty s.open_order
    then record s {
      current_provider_idx = none;
      current_anthropic_idx = none;
      current_block_type = none;
      content_block_open = open_now;
    }
    else record s { content_block_open = open_now }

-- `openBlock`, with `syncCurrent` on the new block.
unfoldable pub open_block : ℕ → ℕ → BlockType → AnthropicStreamState → AnthropicStreamState
open_block provider_idx anthropic_idx block_type s = record s {
  open_order =
      if is_some (index_lookup provider_idx s.open_blocks)
      then s.open_order
      else s.open_order ++ provider_idx ∷ [];
  open_blocks =
      index_insert provider_idx (record { anthropic_idx = anthropic_idx; block_type = block_type })
        s.open_blocks;
  current_provider_idx = some provider_idx;
  current_anthropic_idx = some anthropic_idx;
  current_block_type = some block_type;
  content_block_open = true;
}

-- The loop of `closeBlock`: the first occurrence goes.
unfoldable pub remove_first : ℕ → List ℕ → List ℕ
remove_first i [] = []
remove_first i (j ∷ js) = let rest = remove_first i js in if j == i then js else j ∷ rest

-- `closeBlock`
unfoldable pub close_block : ℕ → AnthropicStreamState → AnthropicStreamState
unfolding sync_closed remove_first
close_block provider_idx s = sync_closed (record s {
  open_blocks = index_delete provider_idx s.open_blocks;
  open_order = remove_first provider_idx s.open_order;
})

abbrev pub stop_events : Option OpenBlock → List AnthropicEvent
stop_events none = []
stop_events (some blk) = content_block_stop blk.anthropic_idx ∷ []

-- The loop of `closeAll`: its events, and the open blocks behind it.
unfoldable pub close_loop :
    List ℕ → List (ℕ × OpenBlock) → List AnthropicEvent × List (ℕ × OpenBlock)
close_loop [] blocks = ([], blocks)
close_loop (p ∷ order) blocks =
    let rest = close_loop order (index_delete p blocks) in
    (stop_events (index_lookup p blocks) ++ rest.0, rest.1)

-- `closeAll`
unfoldable pub close_all : AnthropicStreamState → List AnthropicEvent × AnthropicStreamState
unfolding close_loop sync_closed
close_all s =
    let closed = close_loop s.open_order s.open_blocks in
    (closed.0, sync_closed (record s { open_blocks = closed.1; open_order = [] }))
