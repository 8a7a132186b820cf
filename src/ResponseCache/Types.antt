-- ===== src/ResponseCache/Types.antt =====
-- stream.go and internal/cif/types.go: what `StreamAccumulator` reads, and its state. A pointer to a
-- block is its position among the blocks. Nil and empty maps of arguments are not told apart.
use omnillm.Prelude.{ℕ, Bool, true, false, Option, none, List, [], Text}
use omnillm.Serialization.Canonical.{StopReason, end_turn, Usage}
use omnillm.ToolArguments.Schemas.{Json}

-- `CIFToolCallPart`
pub record Call : Type 0 where
  pub id : Text
  pub name : Text
  pub args : List (Text × Json)
  pub kind : Text
  pub raw_input : Option Text
  pub namespace : Text

-- `CIFContentPart`; the types that the accumulator does not look at are one.
pub data Part : Type 0 where
  text_part : Text → Part
  thinking_part : Text → Option Text → Part
  call_part : Call → Part
  other_part : Part

-- `DeltaContent`
pub data Piece : Type 0 where
  text_piece : Text → Piece
  thinking_piece : Text → Piece
  arguments_piece : Text → Piece
  custom_piece : Text → Piece

-- `CIFStreamEvent`
pub data Event : Type 0 where
  start_event : Text → Text → Event
  delta_event : ℕ → Option Part → Option Piece → Event
  stop_event : ℕ → Event
  end_event : StopReason → Option Text → Option Usage → Event
  error_event : Event

-- `cif.CanonicalResponse`
pub record Response : Type 0 where
  pub id : Text
  pub model : Text
  pub content : List Part
  pub stop_reason : StopReason
  pub stop_sequence : Option Text
  pub usage : Option Usage

pub data BlockKind : Type 0 where
  block_text block_thinking block_tool : BlockKind

unfoldable pub kind_eq : BlockKind → BlockKind → Bool
kind_eq block_text block_text = true
kind_eq block_thinking block_thinking = true
kind_eq block_tool block_tool = true
kind_eq _ _ = false

-- `toolAccum`
pub record ToolAccum : Type 0 where
  pub call : Call
  pub raw_args : Text
  pub raw_custom_input : Text
  pub custom_delta : Bool

-- `blockAccum`
pub record BlockAccum : Type 0 where
  pub kind : BlockKind
  pub text : Text
  pub signature : Option Text
  pub tool : ToolAccum

-- `StreamAccumulator`
pub record StreamAccumulator : Type 0 where
  pub id : Text
  pub model : Text
  pub stop_reason : StopReason
  pub stop_seq : Option Text
  pub usage : Option Usage
  pub errored : Bool
  pub ended : Bool
  pub blocks : List BlockAccum
  pub open_by_index : List (ℕ × ℕ)

-- `&blockAccum{kind: kind}`, with the kind of its tool.
abbrev pub new_block : BlockKind → Text → BlockAccum
new_block kind tool_kind = record {
  kind = kind;
  text = [];
  signature = none;
  tool = record {
    call = record {
      id = [];
      name = [];
      args = [];
      kind = tool_kind;
      raw_input = none;
      namespace = [];
    };
    raw_args = [];
    raw_custom_input = [];
    custom_delta = false;
  };
}

-- `NewStreamAccumulator`; the reason to stop is set before it is read.
abbrev pub new_stream_accumulator : StreamAccumulator
new_stream_accumulator = record {
  id = [];
  model = [];
  stop_reason = end_turn;
  stop_seq = none;
  usage = none;
  errored = false;
  ended = false;
  blocks = [];
  open_by_index = [];
}
