-- ===== src/ToolArguments/Omissions.antt =====
-- What `NormalizeMap` leaves out.
use omnillm.Prelude.{
  ◌≡◌, refl, not, ◌&&◌, List, [], ◌∷◌, Text, text_eq_iff, lookup, member, is_some, arith,
}
use omnillm.ToolArguments.Schemas.{Json, not_required}

-- The optional properties are those that are declared and not required.
pub member-not_required :
    (required : List Text) (properties : List (Text × Json)) (name : Text)
    → member name (not_required required properties)
      ≡ (is_some (lookup name properties) && not (member name required))
unfolding not_required member lookup
member-not_required required [] name = refl
member-not_required required ((j, v) ∷ properties) name =
    ground (arith, text_eq_iff j name, member-not_required required properties name)
