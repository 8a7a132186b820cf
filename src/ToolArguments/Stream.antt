-- ===== src/ToolArguments/Stream.antt =====
-- toolarguments.go: `NormalizeStream`, the goroutine that reads events from one channel and sends
-- events to another, while its context is not cancelled.
use omnillm.Prelude.{
  index_lookup, index_insert, index_member, index_remove, ℕ, suc, Bool, true, false, not, ◌||◌,
  ◌&&◌, Option, none, some, List, [], ◌∷◌, ◌++◌, Text, text_eq, if◌then◌else◌,
}
use omnillm.ToolArguments.Buffers.{
  Block, tool_block, other_block, Delta, tool_arguments, other_delta, StreamEvent, content_delta,
  block_stop, stream_end, stream_error, other_event, StreamBuffer, StreamState, Normalizer, flush,
  flush_all, is_normalizable,
}
use omnillm.ToolArguments.Normalize.{Codec}
use omnillm.ToolArguments.Schemas.{Tool, schemas_by_name}

-- A new buffer for an index, as an announcement or a first delta makes it.
unfoldable pub new_buffer : Text → Text → ℕ → StreamState → StreamState
new_buffer tool_name id i s = record s {
  buffers =
      index_insert i
        (record {
          tool_name = tool_name;
          tool_call_id = id;
          arguments = [];
          order = s.next_order;
          saw_delta = false;
        })
        s.buffers;
  next_order = suc s.next_order;
}

-- The announcement of a tool that may be normalised, by the buffer of its index.
unfoldable pub announce :
    Normalizer
    → ℕ
    → Text
    → Text
    → Option StreamBuffer
    → StreamState
    → List StreamEvent × StreamState
unfolding flush new_buffer
announce n i id name none s = ([], new_buffer name id i s)
announce n i id name (some b) s =
    if text_eq b.tool_name [] && text_eq b.tool_call_id []
    then (
      [],
      record s {
        buffers = index_insert i (record b { tool_name = name; tool_call_id = id }) s.buffers;
      },
    )
    else if not (text_eq b.tool_name name) || not (text_eq b.tool_call_id id)
    then (let flushed = flush n i s in (flushed.0, new_buffer name id i flushed.1))
    else ([], s)

unfoldable pub unpass : ℕ → StreamState → StreamState
unpass i s = record s { pass_through = index_remove i s.pass_through }

unfoldable pub pass : ℕ → StreamState → StreamState
pass i s = record s { pass_through = i ∷ s.pass_through }

-- `if current.ContentBlock != nil { ... }`
unfoldable pub on_block :
    Normalizer → ℕ → Option Block → StreamState → List StreamEvent × StreamState
unfolding announce unpass pass flush
on_block n i none s = ([], s)
on_block n i (some (other_block t)) s = flush n i (unpass i s)
on_block n i (some (tool_block id name)) s =
    if not (is_normalizable n name)
    then (let flushed = flush n i s in (flushed.0, pass i flushed.1))
    else announce n i id name (index_lookup i s.buffers) (unpass i s)

-- The buffer with another piece of arguments.
unfoldable pub append_arguments : Text → StreamBuffer → StreamBuffer
append_arguments t b = record b { arguments = b.arguments ++ t; saw_delta = true }

-- A piece of arguments that is not passed through: it is kept in the buffer of its index.
unfoldable pub keep_delta : ℕ → Text → Option StreamBuffer → StreamState → StreamState
unfolding append_arguments
keep_delta i t (some b) s = record s { buffers = index_insert i (append_arguments t b) s.buffers }
keep_delta i t none s = record s {
  buffers =
      index_insert i
        (record {
          tool_name = [];
          tool_call_id = [];
          arguments = t;
          order = s.next_order;
          saw_delta = true;
        })
        s.buffers;
  next_order = suc s.next_order;
}

-- The delta that is sent on, and the state behind it.
unfoldable pub on_delta : ℕ → Option Delta → StreamState → Option Delta × StreamState
unfolding keep_delta
on_delta i (some (tool_arguments t)) s =
    if index_member i s.pass_through
    then (some (tool_arguments t), s)
    else (none, keep_delta i t (index_lookup i s.buffers) s)
on_delta i (some (other_delta t)) s = (some (other_delta t), s)
on_delta i none s = (none, s)

-- One event of the input.
unfoldable pub on_event : Normalizer → StreamEvent → StreamState → List StreamEvent × StreamState
unfolding on_block on_delta flush flush_all unpass
on_event n (content_delta i block delta) s =
    let announced = on_block n i block s in
    let sent = on_delta i delta announced.1 in
    (announced.0 ++ content_delta i block sent.0 ∷ [], sent.1)
on_event n (block_stop i) s =
    let flushed = flush n i (unpass i s) in (flushed.0 ++ block_stop i ∷ [], flushed.1)
on_event n (stream_end t) s =
    let flushed = flush_all n s in (flushed.0 ++ stream_end t ∷ [], flushed.1)
on_event n (stream_error t) s =
    let flushed = flush_all n s in (flushed.0 ++ stream_error t ∷ [], flushed.1)
on_event n (other_event t) s = (other_event t ∷ [], s)

-- The goroutine over the events of the input, until it is closed.
unfoldable pub normalize_events : Normalizer → List StreamEvent → StreamState → List StreamEvent
unfolding on_event flush_all
normalize_events n [] s = (flush_all n s).0
normalize_events n (e ∷ input) s =
    let sent = on_event n e s in sent.0 ++ normalize_events n input sent.1

-- `NormalizeStreamWithPolicy`
unfoldable pub normalize_stream : Codec → Bool → List Tool → List StreamEvent → List StreamEvent
unfolding normalize_events
normalize_stream codec policy tools input =
    normalize_events (record { codec = codec; policy = policy; schemas = schemas_by_name tools })
      input (record { buffers = []; pass_through = []; next_order = 0 })
