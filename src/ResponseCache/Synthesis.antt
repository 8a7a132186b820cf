-- ===== src/ResponseCache/Synthesis.antt =====
-- stream.go: `SynthesizeStream`, which replays a response as the events of a stream.
use omnillm.Prelude.{ℕ, suc, none, some, List, [], ◌∷◌, ◌++◌, text_eq, if◌then◌else◌}
use omnillm.ResponseCache.Types.{
  Call, Event, Part, Response, arguments_piece, call_part, custom_piece, delta_event, end_event,
  other_part, start_event, stop_event, text_part, text_piece, thinking_part, thinking_piece,
}
use omnillm.ResponseCache.Accumulator.{Codec, custom_kind, encode_tool_args, or_else}

-- The announcement of a call, by its kind, and the delta with its arguments or its input.
unfoldable pub synthesize_call : Codec → ℕ → Call → Event
unfolding encode_tool_args
synthesize_call codec i c =
    if text_eq c.kind custom_kind
    then delta_event i (some (call_part (record c { args = []; raw_input = some [] })))
        (some (custom_piece (or_else [] c.raw_input)))
    else delta_event i (some (call_part (record c { args = []; raw_input = none })))
        (some (arguments_piece (encode_tool_args codec c.args)))

-- The events of a part; parts of other types have none.
unfoldable pub synthesize_part : Codec → ℕ → Part → List Event
unfolding synthesize_call
synthesize_part codec i (text_part t) =
    delta_event i (some (text_part [])) (some (text_piece t)) ∷ stop_event i ∷ []
synthesize_part codec i (thinking_part t s) =
    delta_event i (some (thinking_part [] s)) (some (thinking_piece t)) ∷ stop_event i ∷ []
synthesize_part codec i (call_part c) = synthesize_call codec i c ∷ stop_event i ∷ []
synthesize_part codec i other_part = []

unfoldable pub synthesize_parts : Codec → ℕ → List Part → List Event
unfolding synthesize_part
synthesize_parts codec i [] = []
synthesize_parts codec i (p ∷ ps) = synthesize_part codec i p ++ synthesize_parts codec (suc i) ps

-- `SynthesizeStream`
unfoldable pub synthesize_stream : Codec → Response → List Event
unfolding synthesize_parts
synthesize_stream codec r =
    start_event r.id r.model
    ∷ (synthesize_parts codec 0 r.content ++ end_event r.stop_reason r.stop_sequence r.usage ∷ [])
