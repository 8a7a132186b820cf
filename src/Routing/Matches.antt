-- ===== src/Routing/Matches.antt =====
-- The index answers as a scan of the table does.
use omnillm.Prelude.{
  Bool, false, ◌||◌, not, ◌&&◌, List, [], ◌∷◌, Text, text_eq, trim_space, if◌then◌else◌,
}
use omnillm.Routing.References.{
  ProviderInstance, normalize_provider_reference, append_id, sort_ids, Reference, instance_of,
  not_found, by_matches,
}

-- The instances of the rows whose text, as `text_of` reads it, is not blank and normalises to the
-- key.
unfoldable pub matching : (ProviderInstance → Text) → Text → List ProviderInstance → List Text
matching text_of key [] = []
matching text_of key (r ∷ rows) =
    let rest = matching text_of key rows in
    let k = normalize_provider_reference (text_of r) in
    if text_eq k key && not (text_eq k []) then r.instance_id ∷ rest else rest

unfoldable pub has_instance : Text → List ProviderInstance → Bool
has_instance id [] = false
has_instance id (r ∷ rows) = text_eq r.instance_id id || has_instance id rows

-- The reference is looked up in the table itself: an instance ID, else the only alias, else the
-- only name, and an ambiguous reference where an alias or a name is shared.
unfoldable pub scan : List ProviderInstance → Text → Reference
unfolding has_instance matching
scan rows reference =
    let trimmed = trim_space reference in
    let key = normalize_provider_reference trimmed in
    if has_instance trimmed rows
    then instance_of trimmed
    else by_matches trimmed (sort_ids (matching (λ r. r.subtitle) key rows))
        (by_matches trimmed (sort_ids (matching (λ r. r.name) key rows)) (not_found trimmed))

-- The entries of a map from keys to IDs that the loop over the rows fills.
add_all :
    (ProviderInstance → Text)
    → List ProviderInstance
    → List (Text × List Text)
    → List (Text × List Text)
add_all text_of [] m = m
add_all text_of (r ∷ rows) m =
    add_all text_of rows (append_id (normalize_provider_reference (text_of r)) r.instance_id m)
