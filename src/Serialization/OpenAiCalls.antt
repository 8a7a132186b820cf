-- ===== src/Serialization/OpenAiCalls.antt =====
-- The tool calls of a whole response of chat completions.
use omnillm.Prelude.{
  ◌≡◌, refl, ap, ◌∙◌, subst, Bool, true, false, not, Option, none, some, List, [], ◌∷◌, Text, codes,
  text_eq, is_nil,
}
use omnillm.Serialization.Canonical.{
  CanonicalPart, text_part, image_part, thinking_part, tool_call_part, tool_result_part, StopReason,
  end_turn, max_tokens, tool_use, stop_sequence, content_filter, failed, other_reason,
  CanonicalResponse,
}
use omnillm.Serialization.OpenAiStream.{convert_stop_reason_to_openai}
use omnillm.Serialization.OpenAiMessage.{
  OpenAiToolCall, OpenAiResponse, Collected, with_text, with_call, collect_parts, finish_reason_of,
  openai_response, serialize_to_openai,
}
use omnillm.Serialization.ToolUse.{has_tool_call}
use omnillm.ToolArguments.Schemas.{Json}

-- A call with the arguments that it was printed from.
abbrev pub Printed :
    (List (Text × Json) → Option Text) → Text → Text → List (Text × Json) → OpenAiToolCall → Type 0
Printed marshal id name args c = (c.id ≡ id) × (c.name ≡ name) × (marshal args ≡ some c.arguments)

-- The calls are those of the parts, in order, each with its printed arguments.
abbrev pub Matches :
    (List (Text × Json) → Option Text) → List CanonicalPart → List OpenAiToolCall → Type 0
Matches marshal [] [] = Unit
Matches marshal [] (c ∷ calls) = ⊥
Matches marshal (tool_call_part id name args ∷ parts) [] = ⊥
Matches marshal (tool_call_part id name args ∷ parts) (c ∷ calls) =
    Printed marshal id name args c × Matches marshal parts calls
Matches marshal (text_part t ∷ parts) calls = Matches marshal parts calls
Matches marshal (thinking_part t s ∷ parts) calls = Matches marshal parts calls
Matches marshal (image_part t ∷ parts) calls = Matches marshal parts calls
Matches marshal (tool_result_part t ∷ parts) calls = Matches marshal parts calls

abbrev CollectedMatches :
    (List (Text × Json) → Option Text) → List CanonicalPart → Option Collected → Type 0
CollectedMatches marshal parts none = Unit
CollectedMatches marshal parts (some (content, calls)) =
    Matches marshal parts calls × (is_nil calls ≡ not (has_tool_call parts))

with_text-Matches :
    (marshal : List (Text × Json) → Option Text) (t : Text) (parts : List CanonicalPart)
    (rest : Option Collected)
    → CollectedMatches marshal parts rest
    → CollectedMatches marshal (text_part t ∷ parts) (with_text t rest)
unfolding has_tool_call
with_text-Matches marshal t parts none h = tt
with_text-Matches marshal t parts (some (content, calls)) h = h

with_call-Matches :
    (marshal : List (Text × Json) → Option Text) (id name : Text) (args : List (Text × Json))
    (printed : Option Text) (parts : List CanonicalPart) (rest : Option Collected)
    → marshal args ≡ printed
    → CollectedMatches marshal parts rest
    → CollectedMatches marshal
        (tool_call_part id name args ∷ parts)
        (with_call id name printed rest)
unfolding has_tool_call
with_call-Matches marshal id name args none parts rest e h = tt
with_call-Matches marshal id name args (some t) parts none e h = tt
with_call-Matches marshal id name args (some t) parts (some (content, calls)) e (m, n) =
    (((refl, refl, e), m), refl)

skip-Matches :
    (marshal : List (Text × Json) → Option Text) (p : CanonicalPart) (parts : List CanonicalPart)
    (rest : Option Collected)
    → ((calls : List OpenAiToolCall)
        → Matches marshal parts calls
        → Matches marshal (p ∷ parts) calls)
    → has_tool_call parts ≡ has_tool_call (p ∷ parts)
    → CollectedMatches marshal parts rest
    → CollectedMatches marshal (p ∷ parts) rest
skip-Matches marshal p parts none f e h = tt
skip-Matches marshal p parts (some (content, calls)) f e (m, n) = (f calls m, n ∙ ap not e)

collect_parts-Matches :
    (marshal : List (Text × Json) → Option Text) (parts : List CanonicalPart)
    → CollectedMatches marshal parts (collect_parts marshal parts)
unfolding collect_parts has_tool_call
collect_parts-Matches marshal [] = (tt, refl)
collect_parts-Matches marshal (text_part t ∷ parts) =
    with_text-Matches marshal t parts (collect_parts marshal parts)
      (collect_parts-Matches marshal parts)
collect_parts-Matches marshal (tool_call_part id name args ∷ parts) =
    with_call-Matches marshal id name args (marshal args) parts (collect_parts marshal parts) refl
      (collect_parts-Matches marshal parts)
collect_parts-Matches marshal (thinking_part t s ∷ parts) =
    skip-Matches marshal (thinking_part t s) parts (collect_parts marshal parts) (λ calls m. m) refl
      (collect_parts-Matches marshal parts)
collect_parts-Matches marshal (image_part t ∷ parts) =
    skip-Matches marshal (image_part t) parts (collect_parts marshal parts) (λ calls m. m) refl
      (collect_parts-Matches marshal parts)
collect_parts-Matches marshal (tool_result_part t ∷ parts) =
    skip-Matches marshal (tool_result_part t) parts (collect_parts marshal parts) (λ calls m. m)
      refl (collect_parts-Matches marshal parts)

reason-tool_calls :
    (reason : StopReason) (calls : List OpenAiToolCall)
    → text_eq (finish_reason_of calls reason) (codes "tool_calls") ≡ not (is_nil calls)
unfolding finish_reason_of convert_stop_reason_to_openai text_eq
reason-tool_calls reason (c ∷ calls) = refl
reason-tool_calls end_turn [] = refl
reason-tool_calls max_tokens [] = refl
reason-tool_calls tool_use [] = refl
reason-tool_calls stop_sequence [] = refl
reason-tool_calls content_filter [] = refl
reason-tool_calls failed [] = refl
reason-tool_calls (other_reason r) [] = refl

not-not : (b : Bool) → not (not b) ≡ b
not-not true = refl
not-not false = refl

-- What is shown of a response.
abbrev pub HasCalls :
    (List (Text × Json) → Option Text) → CanonicalResponse → OpenAiResponse → Type 0
HasCalls marshal r o =
    Matches marshal r.content o.tool_calls
    × (text_eq o.finish_reason (codes "tool_calls") ≡ has_tool_call r.content)

openai_response-HasCalls :
    (marshal : List (Text × Json) → Option Text) (r : CanonicalResponse) (o : OpenAiResponse)
    (collected : Option Collected)
    → CollectedMatches marshal r.content collected
    → openai_response r collected ≡ some o
    → HasCalls marshal r o
openai_response-HasCalls marshal r o none h e = cc
openai_response-HasCalls marshal r o (some (content, calls)) (m, n) e =
    subst (HasCalls marshal r) (ap (λ x. elim x [ none ↦ o | some y ↦ y ]) e)
      (m, reason-tool_calls r.stop_reason calls ∙ ap not n ∙ not-not (has_tool_call r.content))

-- A response in the dialect of chat completions has the tool calls of the canonical one, in order, with
-- their IDs, names and printed arguments, and its reason to finish is `tool_calls` if and only if
-- there is one, whatever the reason to stop was.
pub serialize_to_openai-HasCalls :
    (marshal : List (Text × Json) → Option Text) (r : CanonicalResponse) (o : OpenAiResponse)
    → serialize_to_openai marshal r ≡ some o
    → HasCalls marshal r o
unfolding serialize_to_openai
serialize_to_openai-HasCalls marshal r o e =
    openai_response-HasCalls marshal r o (collect_parts marshal r.content)
      (collect_parts-Matches marshal r.content) e
