-- ===== src/ToolArguments/Schemas.antt =====
-- toolarguments.go: what a JSON schema says of properties: `optionalProperties`,
-- `schemaAllowsString` and `schemasByName`. A `map[string]interface{}` is an association list.
use omnillm.Prelude.{
  Bool, true, false, not, ◌||◌, ◌&&◌, Option, none, some, List, [], ◌∷◌, Text, codes, text_eq,
  lookup, insert, member, if◌then◌else◌,
}

-- The values of `encoding/json` behind an `interface{}`; a number is its text.
mutual
  pub data Json : Type 0 where
    null : Json
    boolean : Bool → Json
    number : Text → Json
    string : Text → Json
    array : Items → Json
    object : Fields → Json

  pub data Items : Type 0 where
    no_items : Items
    item : Json → Items → Items

  pub data Fields : Type 0 where
    no_fields : Fields
    field : Text → Json → Fields → Fields

unfoldable pub fields : Fields → List (Text × Json)
fields no_fields = []
fields (field k v rest) = (k, v) ∷ fields rest

-- `value == text`, where the value is an interface and the text a constant.
unfoldable pub is_string : Json → Text → Bool
is_string null text = false
is_string (boolean b) text = false
is_string (number n) text = false
is_string (string s) text = text_eq s text
is_string (array items) text = false
is_string (object fs) text = false

unfoldable pub is_string_at : Option Json → Text → Bool
unfolding is_string
is_string_at none text = false
is_string_at (some v) text = is_string v text

-- The type assertions `.(string)`, `.(map[string]interface{})` and `.([]interface{})`.
unfoldable pub as_string : Option Json → Option Text
as_string (some (string s)) = some s
as_string _ = none

unfoldable pub as_object : Option Json → Option (List (Text × Json))
unfolding fields
as_object (some (object fs)) = some (fields fs)
as_object _ = none

unfoldable pub as_array : Option Json → Option Items
as_array (some (array items)) = some items
as_array _ = none

-- The loop over `required`; every item must be a string.
unfoldable pub required_names : Items → Option (List Text)
required_names no_items = some []
required_names (item (string s) items) = elim (required_names items) [
  | none ↦ none
  | some names ↦ some (s ∷ names)
]
required_names (item _ items) = none

-- The names in `required`; a schema without it requires nothing.
unfoldable pub required_of : Option Json → Option (List Text)
unfolding required_names as_array
required_of none = some []
required_of (some v) = elim (as_array (some v)) [ none ↦ none | some items ↦ required_names items ]

unfoldable pub not_required : List Text → List (Text × Json) → List Text
not_required required [] = []
not_required required ((name, v) ∷ properties) =
    let rest = not_required required properties in
    if member name required then rest else name ∷ rest

-- `optionalProperties`; a nil schema is `none`, and so is a result that is not ok.
unfoldable pub optional_properties : Option (List (Text × Json)) → Option (List Text)
unfolding is_string_at as_object required_of not_required
optional_properties none = none
optional_properties (some schema) =
    if not (is_string_at (lookup (codes "type") schema) (codes "object"))
    then none
    else elim (as_object (lookup (codes "properties") schema)) [
      | none ↦ none
      | some properties ↦ elim (required_of (lookup (codes "required") schema)) [
        | none ↦ none
        | some required ↦ some (not_required required properties)
      ]
    ]

unfoldable pub contains_string : Text → Items → Bool
unfolding is_string
contains_string allowed no_items = false
contains_string allowed (item v items) = is_string v allowed || contains_string allowed items

-- `const` and `enum` of a property.
unfoldable pub value_allows : Text → List (Text × Json) → Bool
unfolding as_string as_array contains_string
value_allows allowed property = elim (as_string (lookup (codes "const") property)) [
  | some constant ↦ text_eq constant allowed
  | none ↦ elim (as_array (lookup (codes "enum") property)) [
    | none ↦ false
    | some values ↦ contains_string allowed values
  ]
]

-- A property's type, where it has one, must be "string".
unfoldable pub is_string_typed : Option Json → Bool
unfolding is_string
is_string_typed none = true
is_string_typed (some v) = is_string v (codes "string")

-- `schemaAllowsString`
unfoldable pub schema_allows_string : Option (List (Text × Json)) → Text → Text → Bool
unfolding is_string_at as_object value_allows is_string_typed
schema_allows_string none property_name allowed = false
schema_allows_string (some schema) property_name allowed =
    if not (is_string_at (lookup (codes "type") schema) (codes "object"))
    then false
    else elim (as_object (lookup (codes "properties") schema)) [
      | none ↦ false
      | some properties ↦ elim (as_object (lookup property_name properties)) [
        | none ↦ false
        | some property ↦
            is_string_typed (lookup (codes "type") property) && value_allows allowed property
      ]
    ]

-- `cif.CIFTool`: its name and its schema, which may be nil.
pub record Tool : Type 0 where
  pub name : Text
  pub parameters_schema : Option (List (Text × Json))

-- `schemasByName`: a later tool replaces an earlier one of its name.
unfoldable pub add_schemas :
    List Tool
    → List (Text × Option (List (Text × Json)))
    → List (Text × Option (List (Text × Json)))
add_schemas [] schemas = schemas
add_schemas (t ∷ tools) schemas =
    add_schemas tools
      (if text_eq t.name [] then schemas else insert t.name t.parameters_schema schemas)

unfoldable pub schemas_by_name : List Tool → List (Text × Option (List (Text × Json)))
unfolding add_schemas
schemas_by_name tools = add_schemas tools []
