-- ===== src/ToolArguments/Buffers.antt =====
-- toolarguments.go: the events of a stream, the buffers of `NormalizeStream` and how they are
-- flushed. Indices of blocks are natural numbers.
use omnillm.Prelude.{
  index_lookup, index_delete, ℕ, zero, suc, Bool, true, false, ◌||◌, ◌&&◌, Option, none, some, List,
  [], ◌∷◌, ◌++◌, Text, codes, text_eq, lookup, ltb, length, if◌then◌else◌,
}
use omnillm.ToolArguments.Normalize.{Schema, Codec, normalize_json, repair_arguments, or_text}
use omnillm.ToolArguments.Schemas.{optional_properties, schema_allows_string}

-- The content block that a delta announces: a tool call (its ID and its name), or another block.
pub data Block : Type 0 where
  tool_block : Text → Text → Block
  other_block : Text → Block

-- `cif.DeltaContent`: a piece of a tool call's arguments, or another delta.
pub data Delta : Type 0 where
  tool_arguments : Text → Delta
  other_delta : Text → Delta

-- `cif.CIFStreamEvent`; the contents that are only passed on are texts.
pub data StreamEvent : Type 0 where
  content_delta : ℕ → Option Block → Option Delta → StreamEvent
  block_stop : ℕ → StreamEvent
  stream_end : Text → StreamEvent
  stream_error : Text → StreamEvent
  other_event : Text → StreamEvent

-- `streamBuffer`
pub record StreamBuffer : Type 0 where
  pub tool_name : Text
  pub tool_call_id : Text
  pub arguments : Text
  pub order : ℕ
  pub saw_delta : Bool

-- The variables of the goroutine; `pass_through` holds the indices that map to true.
pub record StreamState : Type 0 where
  pub buffers : List (ℕ × StreamBuffer)
  pub pass_through : List ℕ
  pub next_order : ℕ

-- What the goroutine closes over: the codec, the policy's flag and the schemas by name.
pub record Normalizer : Type 0 where
  pub codec : Codec
  pub policy : Bool
  pub schemas : List (Text × Schema)

-- `optional, ok := optionalProperties(schema); ok && len(optional) > 0`
unfoldable pub has_optional : Option (List Text) → Bool
has_optional none = false
has_optional (some []) = false
has_optional (some (name ∷ names)) = true

-- `normalizable[name]`
unfoldable pub is_normalizable : Normalizer → Text → Bool
unfolding has_optional
is_normalizable n name = elim (lookup name n.schemas) [
  | none ↦ false
  | some schema ↦
      has_optional (optional_properties schema)
      || (n.policy
          && text_eq name (codes "Agent")
          && schema_allows_string schema (codes "subagent_type") (codes "Plan"))
]

-- The repair of complete arguments in `flush`.
unfoldable pub repair_text : Normalizer → Text → Schema → Text → Text
repair_text n tool_name schema arguments = elim (n.codec.unmarshal arguments) [
  | none ↦ arguments
  | some object ↦ elim (repair_arguments n.policy tool_name object schema) [
    | none ↦ arguments
    | some repaired ↦ or_text (n.codec.marshal repaired) arguments
  ]
]

-- The arguments that `flush` sends for a buffer.
unfoldable pub complete_arguments : Normalizer → StreamBuffer → Text
unfolding repair_text
complete_arguments n b = elim (lookup b.tool_name n.schemas) [
  | none ↦ b.arguments
  | some schema ↦ repair_text n b.tool_name schema (normalize_json n.codec b.arguments schema)
]

-- What `flush` sends, by the buffer of the index.
unfoldable pub flush_events : Normalizer → ℕ → Option StreamBuffer → List StreamEvent
flush_events n i none = []
flush_events n i (some b) =
    if b.saw_delta
    then content_delta i none (some (tool_arguments (complete_arguments n b))) ∷ []
    else []

-- `flush`
unfoldable pub flush : Normalizer → ℕ → StreamState → List StreamEvent × StreamState
unfolding flush_events
flush n i s =
    (flush_events n i (index_lookup i s.buffers), record s { buffers = index_delete i s.buffers })

-- The loop of `flushAll` that selects the buffer of the least order, from the best so far.
unfoldable pub select_first : Option (ℕ × ℕ) → List (ℕ × StreamBuffer) → Option (ℕ × ℕ)
select_first best [] = best
select_first none ((i, b) ∷ buffers) = select_first (some (i, b.order)) buffers
select_first (some (j, order)) ((i, b) ∷ buffers) =
    select_first (if ltb b.order order then some (i, b.order) else some (j, order)) buffers

-- `flushAll`, on fuel for its outer loop.
unfoldable pub flush_rounds : ℕ → Normalizer → StreamState → List StreamEvent × StreamState
unfolding flush
flush_rounds zero n s = ([], s)
flush_rounds (suc fuel) n s = elim (select_first none s.buffers) [
  | none ↦ ([], s)
  | some (i, order) ↦
      (let first = flush n i s in
        let rest = flush_rounds fuel n first.1 in (first.0 ++ rest.0, rest.1))
]

unfoldable pub flush_all : Normalizer → StreamState → List StreamEvent × StreamState
unfolding flush_rounds
flush_all n s = flush_rounds (length s.buffers) n s
