-- ===== src/ResponseCache/Accumulator.antt =====
-- stream.go: `StreamAccumulator`, which rebuilds a response from the events of a stream.
use omnillm.Prelude.{
  ℕ, Bool, true, not, ◌&&◌, ◌||◌, Option, none, some, List, [], ◌∷◌, ◌++◌, Text, codes, text_eq,
  is_nil, is_some, length, get_elem?, zero, suc, index_lookup, index_insert, index_delete,
  if◌then◌else◌,
}
use omnillm.ToolArguments.Schemas.{Json, string}
use omnillm.ResponseCache.Types.{
  Call, Part, text_part, thinking_part, call_part, other_part, Piece, text_piece, thinking_piece,
  arguments_piece, custom_piece, Event, start_event, delta_event, stop_event, end_event,
  error_event, Response, BlockKind, block_text, block_thinking, block_tool, kind_eq, ToolAccum,
  BlockAccum, StreamAccumulator, new_block,
}

-- A change of the block at a position.
unfoldable pub update_at : ℕ → (BlockAccum → BlockAccum) → List BlockAccum → List BlockAccum
update_at n f [] = []
update_at zero f (b ∷ bs) = f b ∷ bs
update_at (suc n) f (b ∷ bs) = b ∷ update_at n f bs

unfoldable pub modify : ℕ → (BlockAccum → BlockAccum) → StreamAccumulator → StreamAccumulator
unfolding update_at
modify p f a = record a { blocks = update_at p f a.blocks }

abbrev pub if_passes : (BlockAccum → Bool) → ℕ → Option BlockAccum → Option ℕ
if_passes test p none = none
if_passes test p (some b) = if test b then some p else none

-- The block that is open for an index passes a test: its position.
unfoldable pub open_position : (BlockAccum → Bool) → Option ℕ → List BlockAccum → Option ℕ
open_position test none blocks = none
open_position test (some p) blocks = if_passes test p (get_elem? blocks p)

-- That block, or a new one.
unfoldable pub open_with : ℕ → BlockAccum → Option ℕ → StreamAccumulator → ℕ × StreamAccumulator
open_with i fresh (some p) a = (p, a)
open_with i fresh none a = (
  length a.blocks,
  record a {
    blocks = a.blocks ++ fresh ∷ [];
    open_by_index = index_insert i (length a.blocks) a.open_by_index;
  },
)

-- `openBlock`
unfoldable pub open_block : ℕ → BlockKind → StreamAccumulator → ℕ × StreamAccumulator
unfolding open_position open_with kind_eq
open_block i kind a =
    open_with i (new_block kind [])
      (open_position (λ b. kind_eq b.kind kind) (index_lookup i a.open_by_index) a.blocks) a

-- The block is one of the call that is announced.
unfoldable pub is_same_tool : Text → Text → Text → BlockAccum → Bool
unfolding kind_eq
is_same_tool id name kind b =
    kind_eq b.kind block_tool
    && ((is_nil b.tool.call.id || text_eq b.tool.call.id id)
        && ((is_nil b.tool.call.name || text_eq b.tool.call.name name)
            && (is_nil b.tool.call.kind || text_eq b.tool.call.kind kind)))

-- `openToolBlock`
unfoldable pub open_tool_block : ℕ → Text → Text → Text → StreamAccumulator → ℕ × StreamAccumulator
unfolding open_position open_with is_same_tool
open_tool_block i id name kind a =
    open_with i (new_block block_tool kind)
      (open_position (is_same_tool id name kind) (index_lookup i a.open_by_index) a.blocks) a

-- What an announcement sets in its block.
abbrev pub announce_call : Call → BlockAccum → BlockAccum
announce_call c b = record b {
  tool = record b.tool {
    call = record c { args = if is_nil c.args then b.tool.call.args else c.args };
  };
}

abbrev pub announce_text : Text → BlockAccum → BlockAccum
announce_text t b = record b { text = if is_nil b.text then t else b.text }

abbrev pub announce_signature : Option Text → BlockAccum → BlockAccum
announce_signature none b = b
announce_signature (some s) b = record b { signature = some s }

-- The first half of `observeDelta`.
unfoldable pub observe_part : ℕ → Option Part → StreamAccumulator → StreamAccumulator
unfolding open_block open_tool_block modify
observe_part i none a = a
observe_part i (some other_part) a = a
observe_part i (some (call_part c)) a =
    let (p, a') = open_tool_block i c.id c.name c.kind a in modify p (announce_call c) a'
observe_part i (some (text_part t)) a =
    let (p, a') = open_block i block_text a in modify p (announce_text t) a'
observe_part i (some (thinking_part t s)) a =
    let (p, a') = open_block i block_thinking a in
    modify p (λ b. announce_signature s (announce_text t b)) a'

abbrev pub add_text : Text → BlockAccum → BlockAccum
add_text t b = record b { text = b.text ++ t }

abbrev pub add_arguments : Text → BlockAccum → BlockAccum
add_arguments t b = record b { tool = record b.tool { raw_args = b.tool.raw_args ++ t } }

-- `cif.CIFToolKindCustom`
abbrev pub custom_kind : Text
custom_kind = codes "custom"

abbrev pub add_custom_input : Text → BlockAccum → BlockAccum
add_custom_input t b =
    let named = record b {
      tool = record b.tool { call = record b.tool.call { kind = custom_kind } };
    } in
    if not (is_nil t) || not (is_some b.tool.call.raw_input)
    then record named {
      tool = record named.tool {
        custom_delta = true;
        raw_custom_input = b.tool.raw_custom_input ++ t;
      };
    }
    else named

-- The second half of `observeDelta`.
unfoldable pub observe_piece : ℕ → Option Piece → StreamAccumulator → StreamAccumulator
unfolding open_block modify
observe_piece i none a = a
observe_piece i (some (text_piece t)) a =
    let (p, a') = open_block i block_text a in modify p (add_text t) a'
observe_piece i (some (thinking_piece t)) a =
    let (p, a') = open_block i block_thinking a in modify p (add_text t) a'
observe_piece i (some (arguments_piece t)) a =
    let (p, a') = open_block i block_tool a in modify p (add_arguments t) a'
observe_piece i (some (custom_piece t)) a =
    let (p, a') = open_block i block_tool a in modify p (add_custom_input t) a'

-- `Observe`
unfoldable pub observe : Event → StreamAccumulator → StreamAccumulator
unfolding observe_part observe_piece
observe (start_event id model) a = record a { id = id; model = model }
observe error_event a = record a { errored = true }
observe (delta_event i part piece) a = observe_piece i piece (observe_part i part a)
observe (stop_event i) a = record a { open_by_index = index_delete i a.open_by_index }
observe (end_event reason stopped_at usage) a = record a {
  ended = true;
  stop_reason = reason;
  stop_seq = stopped_at;
  usage = usage;
}

unfoldable pub observe_all : List Event → StreamAccumulator → StreamAccumulator
unfolding observe
observe_all [] a = a
observe_all (e ∷ es) a = observe_all es (observe e a)

-- `encoding/json` on arguments; `none` is an error.
pub record Codec : Type 0 where
  pub marshal : List (Text × Json) → Option Text
  pub unmarshal : Text → Option (List (Text × Json))

abbrev pub or_else {ℓ} : {A : Type ℓ} → A → Option A → A
or_else d none = d
or_else d (some x) = x

-- `encodeToolArgs`
unfoldable pub encode_tool_args : Codec → List (Text × Json) → Text
encode_tool_args codec args =
    if is_nil args then codes "{}" else or_else (codes "{}") (codec.marshal args)

-- `decodeToolArgs`
unfoldable pub decode_tool_args : Codec → Text → List (Text × Json)
decode_tool_args codec raw = if is_nil raw then [] else or_else [] (codec.unmarshal raw)

-- The call of a block.
abbrev pub tool_part : Codec → ToolAccum → Part
tool_part codec t = call_part (record t.call {
  args =
      if t.custom_delta
      then (codes "input", string t.raw_custom_input) ∷ []
      else if is_nil t.raw_args
      then t.call.args
      else decode_tool_args codec t.raw_args;
  raw_input = if t.custom_delta then some t.raw_custom_input else t.call.raw_input;
})

abbrev pub part_of_kind : Codec → BlockAccum → BlockKind → Part
part_of_kind codec b block_text = text_part b.text
part_of_kind codec b block_thinking = thinking_part b.text b.signature
part_of_kind codec b block_tool = tool_part codec b.tool

unfoldable pub parts_of : Codec → List BlockAccum → List Part
unfolding decode_tool_args
parts_of codec [] = []
parts_of codec (b ∷ bs) = part_of_kind codec b b.kind ∷ parts_of codec bs

-- `Response`
unfoldable pub response : Codec → StreamAccumulator → Option Response
unfolding parts_of
response codec a =
    if a.errored || not a.ended
    then none
    else if is_nil a.blocks
    then none
    else some (record {
      id = a.id;
      model = a.model;
      content = parts_of codec a.blocks;
      stop_reason = a.stop_reason;
      stop_sequence = a.stop_seq;
      usage = a.usage;
    })
