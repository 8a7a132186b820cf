-- ===== src/Routing/NameLaws.antt =====
-- The canonical names are fixed points, and the prefix parser inverts qualification.
use omnillm.Prelude.{
  ◌≡◌, ◌≢◌, refl, ap, Option, none, some, List, [], ◌∷◌, ◌++◌, arith, Text, text_eq, to_lower,
  trim_space, has_prefix, cut, member, if_cases, All,
}
use omnillm.Routing.Names.{
  alias_table, prefix_table, find_alias, find_prefix, or_else, canonical_name, name_or,
  normalize_model_name, parse_provider_prefix,
}

data Fixed : Option Text → Type 0 where
  plain : Fixed none
  named : {c : Text} → normalize_model_name c ≡ c → Fixed (some c)

-- Everything that the switches name is a fixed point, by evaluation.
alias_table_fixed : All (λ e. normalize_model_name e.1 ≡ e.1) alias_table
unfolding normalize_model_name to_lower trim_space has_prefix member text_eq
alias_table_fixed = (refl, (refl, (refl, (refl, (refl, (refl, (refl, (refl, tt))))))))

prefix_table_fixed : All (λ e. normalize_model_name e.1 ≡ e.1) prefix_table
unfolding normalize_model_name to_lower trim_space has_prefix member text_eq
prefix_table_fixed = (refl, (refl, (refl, (refl, tt))))

find_alias-Fixed :
    (n : Text) (t : List (List Text × Text))
    → All (λ e. normalize_model_name e.1 ≡ e.1) t
    → Fixed (find_alias n t)
unfolding find_alias
find_alias-Fixed n [] h = plain
find_alias-Fixed n ((names, c) ∷ t) (e, h) =
    if_cases Fixed (member n names) (some c) (find_alias n t) (λ _. named e)
      (λ _. find_alias-Fixed n t h)

find_prefix-Fixed :
    (n : Text) (t : List (Text × Text))
    → All (λ e. normalize_model_name e.1 ≡ e.1) t
    → Fixed (find_prefix n t)
unfolding find_prefix
find_prefix-Fixed n [] h = plain
find_prefix-Fixed n ((p, c) ∷ t) (e, h) =
    if_cases Fixed (has_prefix n p) (some c) (find_prefix n t) (λ _. named e)
      (λ _. find_prefix-Fixed n t h)

or_else-Fixed : (o o' : Option Text) → Fixed o → Fixed o' → Fixed (or_else o o')
or_else-Fixed none o' f g = g
or_else-Fixed (some c) o' f g = f

canonical_name-Fixed : (n : Text) → Fixed (canonical_name n)
unfolding canonical_name
canonical_name-Fixed n =
    or_else-Fixed (find_alias n alias_table) (find_prefix n prefix_table)
      (find_alias-Fixed n alias_table alias_table_fixed)
      (find_prefix-Fixed n prefix_table prefix_table_fixed)

name_or-Fixed :
    (model_name : Text) (o : Option Text)
    → canonical_name (trim_space (to_lower model_name)) ≡ o
    → Fixed o
    → normalize_model_name (name_or o model_name) ≡ name_or o model_name
unfolding normalize_model_name
name_or-Fixed m none e plain = ap (λ o. name_or o m) e
name_or-Fixed m (some c) e (named f) = f

-- Normalising a model name twice is normalising it once.
pub normalize_model_name_idem :
    (model_name : Text)
    → normalize_model_name (normalize_model_name model_name) ≡ normalize_model_name model_name
unfolding normalize_model_name canonical_name
normalize_model_name_idem m =
    name_or-Fixed m (canonical_name (trim_space (to_lower m))) refl (canonical_name-Fixed _)

-- The text has no slash.
abbrev pub Unqualified : Text → Type 0
Unqualified = All (λ c. c ≢ b'/')

cut-qualified : (p m : Text) → Unqualified p → cut (p ++ b'/' ∷ m) b'/' ≡ some (p, m)
unfolding cut
cut-qualified [] m h = refl
cut-qualified (c ∷ p) m (ne, h) = ground (arith, cut-qualified p m h)

cut-Unqualified : (m : Text) → Unqualified m → cut m b'/' ≡ none
unfolding cut
cut-Unqualified [] h = refl
cut-Unqualified (c ∷ m) (ne, h) = ground (arith, cut-Unqualified m h)

-- The parser gives back the prefix and the model of a qualified name, at its first slash, whatever
-- the model looks like; a name without a slash is all model.
pub parse_provider_prefix_lem :
    (prefix model : Text)
    → Unqualified prefix
    → (parse_provider_prefix (prefix ++ b'/' ∷ model) ≡ (prefix, model))
      × (parse_provider_prefix prefix ≡ ([], prefix))
unfolding parse_provider_prefix
parse_provider_prefix_lem p m h = (
  rw (cut-qualified p m h, parse_provider_prefix),
  rw (cut-Unqualified p h, parse_provider_prefix),
)
