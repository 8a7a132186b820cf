-- ===== src/Routing/Names.antt =====
-- modelrouting.go: `NormalizeModelName` and `ParseProviderPrefix`.
use omnillm.Prelude.{
  Option, none, some, List, [], ◌∷◌, Text, codes, to_lower, trim_space, has_prefix, cut, member,
  if◌then◌else◌,
}

-- The cases of the outer `switch`: names, and what they stand for.
abbrev pub alias_table : List (List Text × Text)
alias_table =
    (codes "gpt-4" ∷ [], codes "gpt-4o")
    ∷ (codes "gpt-3.5-turbo" ∷ [], codes "gpt-4o-mini")
    ∷ (codes "claude-3-sonnet" ∷ [], codes "claude-3-5-sonnet-20241022")
    ∷ (
      codes "haiku"
          ∷ codes "haiku-4.5"
          ∷ codes "claude-haiku"
          ∷ codes "claude-haiku-4.5"
          ∷ codes "claude-haiku-4-5"
          ∷ [],
      codes "claude-haiku-4.5",
    )
    ∷ (
      codes "sonnet" ∷ codes "sonnet-4" ∷ codes "claude-sonnet" ∷ codes "claude-sonnet-4" ∷ [],
      codes "claude-sonnet-4",
    )
    ∷ (
      codes "sonnet-4.5"
          ∷ codes "sonnet-4-5"
          ∷ codes "claude-sonnet-4.5"
          ∷ codes "claude-sonnet-4-5"
          ∷ [],
      codes "claude-sonnet-4.5",
    )
    ∷ (
      codes "sonnet-4.6"
          ∷ codes "sonnet-4-6"
          ∷ codes "claude-sonnet-4.6"
          ∷ codes "claude-sonnet-4-6"
          ∷ [],
      codes "claude-sonnet-4.6",
    )
    ∷ (
      codes "opus"
          ∷ codes "opus-4.6"
          ∷ codes "opus-4-6"
          ∷ codes "claude-opus"
          ∷ codes "claude-opus-4.6"
          ∷ codes "claude-opus-4-6"
          ∷ [],
      codes "claude-opus-4.6",
    )
    ∷ []

-- The cases of the inner `switch`, on prefixes.
abbrev pub prefix_table : List (Text × Text)
prefix_table =
    (codes "claude-haiku-4-5", codes "claude-haiku-4.5")
    ∷ (codes "claude-sonnet-4-5", codes "claude-sonnet-4.5")
    ∷ (codes "claude-sonnet-4-6", codes "claude-sonnet-4.6")
    ∷ (codes "claude-opus-4-6", codes "claude-opus-4.6")
    ∷ []

unfoldable pub find_alias : Text → List (List Text × Text) → Option Text
find_alias n [] = none
find_alias n ((names, c) ∷ table) = if member n names then some c else find_alias n table

unfoldable pub find_prefix : Text → List (Text × Text) → Option Text
find_prefix n [] = none
find_prefix n ((p, c) ∷ table) = if has_prefix n p then some c else find_prefix n table

abbrev pub or_else : Option Text → Option Text → Option Text
or_else none o = o
or_else (some c) o = some c

-- The two `switch`es on the trimmed name in lower case; `none` is the last `default`.
unfoldable pub canonical_name : Text → Option Text
unfolding find_alias find_prefix
canonical_name n = or_else (find_alias n alias_table) (find_prefix n prefix_table)

abbrev pub name_or : Option Text → Text → Text
name_or none model_name = model_name
name_or (some c) model_name = c

unfoldable pub normalize_model_name : Text → Text
unfolding canonical_name
normalize_model_name model_name =
    name_or (canonical_name (trim_space (to_lower model_name))) model_name

-- The provider prefix and the model; the prefix is empty where there is no slash.
unfoldable pub parse_provider_prefix : Text → Text × Text
parse_provider_prefix model_name = elim (cut model_name b'/') [
  | none ↦ ([], model_name)
  | some (before, after) ↦ (before, after)
]
