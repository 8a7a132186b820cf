-- ===== src/Serialization/ToolUse.antt =====
-- Tool calls in a whole response of the Anthropic dialect: the IDs of the calls and the stop reason.
use omnillm.Prelude.{
  ◌≡◌, refl, Bool, true, false, ◌&&◌, List, [], ◌∷◌, ◌++◌, Text, codes, text_eq, trim_space,
  has_prefix, drop, All, if_cases, not, if◌then◌else◌,
}
use omnillm.Serialization.AnthropicMessage.{
  AnthropicBlock, text_block, thinking_block, tool_use_block, normalize_anthropic_tool_use_id,
  anthropic_content, anthropic_content_has_tool_use, serialize_to_anthropic,
  convert_stop_reason_to_anthropic, is_tool_use,
}
use omnillm.Serialization.Canonical.{
  CanonicalPart, text_part, image_part, thinking_part, tool_call_part, tool_result_part, StopReason,
  end_turn, max_tokens, tool_use, stop_sequence, content_filter, failed, other_reason,
  CanonicalResponse,
}

toolu-has_prefix : (t : Text) → has_prefix (codes "toolu_" ++ t) (codes "toolu_") ≡ true
unfolding has_prefix
toolu-has_prefix t = refl

abbrev IsPrefixed : Text → Type 0
IsPrefixed t = has_prefix t (codes "toolu_") ≡ true

normalize_anthropic_tool_use_id-has_prefix :
    (id : Text) → has_prefix (normalize_anthropic_tool_use_id id) (codes "toolu_") ≡ true
unfolding normalize_anthropic_tool_use_id
normalize_anthropic_tool_use_id-has_prefix id =
    if_cases IsPrefixed (text_eq (trim_space id) []) (codes "toolu_empty") _
      (λ _. toolu-has_prefix (codes "empty"))
      (λ _.
        if_cases IsPrefixed (has_prefix (trim_space id) (codes "toolu_")) (trim_space id) _ (λ h. h)
          (λ _.
            if_cases IsPrefixed (has_prefix (trim_space id) (codes "tooluse_")) _ _
              (λ _. toolu-has_prefix (drop 8 (trim_space id)))
              (λ _. toolu-has_prefix (trim_space id))))

-- The ID of a tool call is one that Anthropic gives.
abbrev pub IsAnthropicCall : AnthropicBlock → Type 0
IsAnthropicCall (text_block t) = Unit
IsAnthropicCall (thinking_block t s) = Unit
IsAnthropicCall (tool_use_block id name arguments) = has_prefix id (codes "toolu_") ≡ true

anthropic_content-IsAnthropicCall :
    (suppress : Bool) (parts : List CanonicalPart)
    → All IsAnthropicCall (anthropic_content suppress parts)
unfolding anthropic_content
anthropic_content-IsAnthropicCall suppress [] = tt
anthropic_content-IsAnthropicCall suppress (text_part t ∷ parts) =
    (tt, anthropic_content-IsAnthropicCall suppress parts)
anthropic_content-IsAnthropicCall suppress (tool_call_part id name arguments ∷ parts) = (
  normalize_anthropic_tool_use_id-has_prefix id,
  anthropic_content-IsAnthropicCall suppress parts,
)
anthropic_content-IsAnthropicCall suppress (thinking_part t signature ∷ parts) =
    if_cases (All IsAnthropicCall) suppress _ _
      (λ _. anthropic_content-IsAnthropicCall suppress parts)
      (λ _. (tt, anthropic_content-IsAnthropicCall suppress parts))
anthropic_content-IsAnthropicCall suppress (image_part t ∷ parts) =
    anthropic_content-IsAnthropicCall suppress parts
anthropic_content-IsAnthropicCall suppress (tool_result_part t ∷ parts) =
    anthropic_content-IsAnthropicCall suppress parts

-- A part is a tool call.
unfoldable pub has_tool_call : List CanonicalPart → Bool
has_tool_call [] = false
has_tool_call (tool_call_part id name arguments ∷ parts) = true
has_tool_call (text_part t ∷ parts) = has_tool_call parts
has_tool_call (thinking_part t signature ∷ parts) = has_tool_call parts
has_tool_call (image_part t ∷ parts) = has_tool_call parts
has_tool_call (tool_result_part t ∷ parts) = has_tool_call parts

anthropic_content-has_tool_call :
    (suppress : Bool) (parts : List CanonicalPart)
    → anthropic_content_has_tool_use (anthropic_content suppress parts) ≡ has_tool_call parts
unfolding anthropic_content anthropic_content_has_tool_use has_tool_call
anthropic_content-has_tool_call suppress [] = refl
anthropic_content-has_tool_call suppress (text_part t ∷ parts) =
    anthropic_content-has_tool_call suppress parts
anthropic_content-has_tool_call suppress (tool_call_part id name arguments ∷ parts) = refl
anthropic_content-has_tool_call suppress (thinking_part t signature ∷ parts) =
    if_cases (λ l. anthropic_content_has_tool_use l ≡ has_tool_call parts) suppress _ _
      (λ _. anthropic_content-has_tool_call suppress parts)
      (λ _. anthropic_content-has_tool_call suppress parts)
anthropic_content-has_tool_call suppress (image_part t ∷ parts) =
    anthropic_content-has_tool_call suppress parts
anthropic_content-has_tool_call suppress (tool_result_part t ∷ parts) =
    anthropic_content-has_tool_call suppress parts

reason-tool_use :
    (calls : Bool) (reason : StopReason)
    → text_eq
        (if not calls && is_tool_use reason
          then convert_stop_reason_to_anthropic end_turn
          else convert_stop_reason_to_anthropic reason)
        (codes "tool_use")
      ≡ (is_tool_use reason && calls)
unfolding convert_stop_reason_to_anthropic text_eq
reason-tool_use true tool_use = refl
reason-tool_use false tool_use = refl
reason-tool_use true end_turn = refl
reason-tool_use false end_turn = refl
reason-tool_use true max_tokens = refl
reason-tool_use false max_tokens = refl
reason-tool_use true stop_sequence = refl
reason-tool_use false stop_sequence = refl
reason-tool_use true content_filter = refl
reason-tool_use false content_filter = refl
reason-tool_use true failed = refl
reason-tool_use false failed = refl
reason-tool_use true (other_reason r) = refl
reason-tool_use false (other_reason r) = refl

-- A response in the dialect of Anthropic stops for the use of a tool if and only if the canonical
-- response does and has a tool call among its parts, and every tool call that it sends has an ID with
-- the prefix of Anthropic's IDs, whatever the ID was.
pub serialize_to_anthropic-tool_use :
    (r : CanonicalResponse) (suppress : Bool)
    → (text_eq (serialize_to_anthropic r suppress).stop_reason (codes "tool_use")
        ≡ (is_tool_use r.stop_reason && has_tool_call r.content))
      × All IsAnthropicCall (serialize_to_anthropic r suppress).content
unfolding serialize_to_anthropic
serialize_to_anthropic-tool_use r suppress = (
  rw (anthropic_content-has_tool_call suppress r.content)
      (reason-tool_use (has_tool_call r.content) r.stop_reason),
  anthropic_content-IsAnthropicCall suppress r.content,
)
