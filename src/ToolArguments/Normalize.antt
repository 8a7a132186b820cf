-- ===== src/ToolArguments/Normalize.antt =====
-- toolarguments.go: `NormalizeMap`, `NormalizeJSON`, `repairArguments` and `NormalizeResponse`.
use omnillm.Prelude.{
  Bool, true, false, ◌&&◌, Option, none, some, List, [], ◌∷◌, ◌++◌, Text, codes, text_eq, lookup,
  insert, member, length, ◌==◌, if◌then◌else◌,
}
use omnillm.ToolArguments.Schemas.{
  Json, string, is_string, as_string, optional_properties, schema_allows_string, Tool,
  schemas_by_name,
}

abbrev pub Schema : Type 0
Schema = Option (List (Text × Json))

-- `encoding/json`: decoding an object to raw members and to values, `none` for an error or a null,
-- and encoding them.
pub record Codec : Type 0 where
  pub unmarshal_raw : Text → Option (List (Text × Text))
  pub marshal_raw : List (Text × Text) → Option Text
  pub unmarshal : Text → Option (List (Text × Json))
  pub marshal : List (Text × Json) → Option Text

-- The loop of `NormalizeMap`: the copy without the members that are optional and empty.
unfoldable pub without_empty : List Text → List (Text × Json) → List (Text × Json)
without_empty optional [] = []
without_empty optional ((name, value) ∷ arguments) =
    let rest = without_empty optional arguments in
    if is_string value [] && member name optional then rest else (name, value) ∷ rest

-- `NormalizeMap`
unfoldable pub normalize_map : List (Text × Json) → Schema → List (Text × Json)
unfolding without_empty
normalize_map arguments schema = elim (optional_properties schema) [
  | none ↦ arguments
  | some optional ↦ without_empty optional arguments
]

-- The loop of `NormalizeJSON`, on raw members: the string `""` is the two quotes.
unfoldable pub without_empty_raw : List Text → List (Text × Text) → List (Text × Text)
without_empty_raw optional [] = []
without_empty_raw optional ((name, value) ∷ members) =
    let rest = without_empty_raw optional members in
    if member name optional && text_eq value (34 ∷ 34 ∷ []) then rest else (name, value) ∷ rest

unfoldable pub or_text : Option Text → Text → Text
or_text none default = default
or_text (some t) default = t

-- `NormalizeJSON` on the optional names.
unfoldable pub normalize_members : Codec → Text → List Text → Option (List (Text × Text)) → Text
unfolding without_empty_raw or_text
normalize_members codec arguments optional none = arguments
normalize_members codec arguments optional (some members) =
    let kept = without_empty_raw optional members in
    if length kept == length members then arguments else or_text (codec.marshal_raw kept) arguments

-- `NormalizeJSON`
unfoldable pub normalize_json : Codec → Text → Schema → Text
unfolding normalize_members
normalize_json codec arguments schema = elim (optional_properties schema) [
  | none ↦ arguments
  | some [] ↦ arguments
  | some (name ∷ names) ↦
      normalize_members codec arguments (name ∷ names) (codec.unmarshal_raw arguments)
]

-- `ClaudeCodePlanAgentTypeSentinel`
abbrev pub plan_agent_sentinel : Text
plan_agent_sentinel =
    codes
      "Plan-scriptPath not found: plan file is managed by plan mode system, use Plan agent output only."

unfoldable pub is_sentinel : Option Text → Bool
is_sentinel none = false
is_sentinel (some value) = text_eq value plan_agent_sentinel

-- `repairArguments`, with the policy's flag; `none` where nothing is repaired.
unfoldable pub repair_arguments :
    Bool → Text → List (Text × Json) → Schema → Option (List (Text × Json))
unfolding is_sentinel
repair_arguments policy tool_name arguments schema =
    if policy
      && text_eq tool_name (codes "Agent")
      && is_sentinel (as_string (lookup (codes "subagent_type") arguments))
      && schema_allows_string schema (codes "subagent_type") (codes "Plan")
    then some (insert (codes "subagent_type") (string (codes "Plan")) arguments)
    else none

-- `cif.CIFContentPart`: a tool call, or another part, which is only passed on.
pub data ContentPart : Type 0 where
  tool_call : Text → Text → List (Text × Json) → ContentPart
  other_part : Text → ContentPart

-- `cif.CIFContentPart` of a tool call behind `NormalizeResponse`, and whether it was repaired.
unfoldable pub normalize_call :
    Bool → Text → List (Text × Json) → Schema → List (Text × Json) × Bool
unfolding normalize_map repair_arguments
normalize_call policy tool_name arguments schema =
    let normalized = normalize_map arguments schema in
    elim (repair_arguments policy tool_name normalized schema) [
      | none ↦
          if length normalized == length arguments then (arguments, false) else (normalized, false)
      | some repaired ↦ (repaired, true)
    ]

-- A part of `NormalizeResponseWithPolicy`, and the IDs of the calls that `OnRepair` is told of.
unfoldable pub normalize_part : Bool → List (Text × Schema) → ContentPart → ContentPart × List Text
unfolding normalize_call
normalize_part policy schemas (other_part t) = (other_part t, [])
normalize_part policy schemas (tool_call id tool_name arguments) = elim (lookup tool_name schemas) [
  | none ↦ (tool_call id tool_name arguments, [])
  | some schema ↦
      (let (result, repaired) = normalize_call policy tool_name arguments schema in
        (tool_call id tool_name result, if repaired then id ∷ [] else []))
]

-- The loop of `NormalizeResponseWithPolicy` over the content.
unfoldable pub normalize_content :
    Bool → List (Text × Schema) → List ContentPart → List ContentPart × List Text
unfolding normalize_part
normalize_content policy schemas [] = ([], [])
normalize_content policy schemas (part ∷ parts) =
    let (part', repairs) = normalize_part policy schemas part in
    let (parts', more) = normalize_content policy schemas parts in (part' ∷ parts', repairs ++ more)

-- `NormalizeResponseWithPolicy`
unfoldable pub normalize_response :
    Bool → List Tool → List ContentPart → List ContentPart × List Text
unfolding normalize_content
normalize_response policy tools content = normalize_content policy (schemas_by_name tools) content
