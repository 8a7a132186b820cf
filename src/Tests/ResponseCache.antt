-- ===== src/Tests/ResponseCache.antt =====
-- A cached response with a text, a call and a custom call, replayed and stored again.
use omnillm.Prelude.{◌≡◌, refl, none, some, [], ◌∷◌, codes, text_eq}
use omnillm.Serialization.Canonical.{tool_use}
use omnillm.ToolArguments.Schemas.{string}
use omnillm.ResponseCache.Types.{Call, Response, call_part, new_stream_accumulator, text_part}
use omnillm.ResponseCache.Accumulator.{Codec, observe_all, response}
use omnillm.ResponseCache.Synthesis.{synthesize_stream}
use omnillm.ResponseCache.Storing

-- A codec that prints every object as one text, and parses it as one object.
abbrev one_object : Codec
one_object = record {
  marshal = λ args. some (codes "{a}");
  unmarshal = λ t. some ((codes "path", string (codes "x")) ∷ []);
}

abbrev read_call : Call
read_call = record {
  id = codes "1";
  name = codes "read";
  args = (codes "path", string (codes "x")) ∷ [];
  kind = [];
  raw_input = none;
  namespace = [];
}

abbrev cached : Response
cached = record {
  id = codes "r";
  model = codes "m";
  content =
      text_part (codes "a")
      ∷ call_part read_call
      ∷ call_part (record read_call {
        kind = codes "custom";
        raw_input = some (codes "go");
        args = (codes "input", string (codes "go")) ∷ [];
      })
      ∷ [];
  stop_reason = tool_use;
  stop_sequence = none;
  usage = none;
}

response-synthesize_stream_example :
    response one_object (observe_all (synthesize_stream one_object cached) new_stream_accumulator)
    ≡ some cached
unfolding text_eq
response-synthesize_stream_example =
    Storing.response-synthesize_stream one_object cached refl
      (tt, ((refl, (codes "{a}", refl, refl, refl)), (refl, tt)))
