-- ===== src/Serialization/OpenAiMessage.antt =====
-- to_openai.go: `SerializeToOpenAI`, a whole response in the dialect of chat completions. `json.Marshal`
-- on arguments is a parameter, `none` an error; the time of creation is left out.
use omnillm.Prelude.{Option, none, some, List, [], ◌∷◌, ◌++◌, Text, is_nil, if◌then◌else◌}
use omnillm.Serialization.AnthropicMessage.{is_tool_use}
use omnillm.Serialization.Canonical.{
  CanonicalPart, text_part, image_part, thinking_part, tool_call_part, tool_result_part, StopReason,
  end_turn, tool_use, CanonicalResponse,
}
use omnillm.Serialization.OpenAiStream.{OpenAiUsage, openai_usage, convert_stop_reason_to_openai}
use omnillm.ToolArguments.Schemas.{Json}

-- `OpenAIToolCall`
pub record OpenAiToolCall : Type 0 where
  pub id : Text
  pub name : Text
  pub arguments : Text

-- `OpenAIResponse`, with its one choice.
pub record OpenAiResponse : Type 0 where
  pub id : Text
  pub model : Text
  pub content : Option Text
  pub tool_calls : List OpenAiToolCall
  pub finish_reason : Text
  pub usage : Option OpenAiUsage

abbrev pub Collected : Type 0
Collected = Text × List OpenAiToolCall

-- A text, or a call with the arguments that were printed, in front of what the loop collects.
abbrev pub with_text : Text → Option Collected → Option Collected
with_text t none = none
with_text t (some (content, calls)) = some (t ++ content, calls)

abbrev pub with_call : Text → Text → Option Text → Option Collected → Option Collected
with_call id name none rest = none
with_call id name (some args) none = none
with_call id name (some args) (some (content, calls)) =
    some (content, record { id = id; name = name; arguments = args } ∷ calls)

-- The loop over the parts; parts of other types are dropped.
unfoldable pub collect_parts :
    (List (Text × Json) → Option Text) → List CanonicalPart → Option Collected
collect_parts marshal [] = some ([], [])
collect_parts marshal (text_part t ∷ parts) = with_text t (collect_parts marshal parts)
collect_parts marshal (tool_call_part id name args ∷ parts) =
    with_call id name (marshal args) (collect_parts marshal parts)
collect_parts marshal (thinking_part t s ∷ parts) = collect_parts marshal parts
collect_parts marshal (image_part t ∷ parts) = collect_parts marshal parts
collect_parts marshal (tool_result_part t ∷ parts) = collect_parts marshal parts

-- The reason to finish, by the calls.
unfoldable pub finish_reason_of : List OpenAiToolCall → StopReason → Text
unfolding convert_stop_reason_to_openai
finish_reason_of (c ∷ calls) reason = convert_stop_reason_to_openai tool_use
finish_reason_of [] reason =
    if is_tool_use reason
    then convert_stop_reason_to_openai end_turn
    else convert_stop_reason_to_openai reason

abbrev pub openai_response : CanonicalResponse → Option Collected → Option OpenAiResponse
openai_response r none = none
openai_response r (some (content, calls)) = some (record {
  id = r.id;
  model = r.model;
  content = if is_nil content then none else some content;
  tool_calls = calls;
  finish_reason = finish_reason_of calls r.stop_reason;
  usage = elim r.usage [ none ↦ none | some u ↦ some (openai_usage u) ];
})

-- `SerializeToOpenAI`
unfoldable pub serialize_to_openai :
    (List (Text × Json) → Option Text) → CanonicalResponse → Option OpenAiResponse
unfolding collect_parts finish_reason_of openai_usage
serialize_to_openai marshal r = openai_response r (collect_parts marshal r.content)
