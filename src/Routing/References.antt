-- ===== src/Routing/References.antt =====
-- model_resolution_cache.go: the index of provider instances that `loadInstLocked` builds from the
-- rows of the table `provider_instances`, and `ResolveProviderReference`. A query that fails leaves
-- the index as it was.
use omnillm.Prelude.{
  Bool, true, false, ◌||◌, ◌&&◌, Option, none, some, List, [], ◌∷◌, ◌++◌, Text, text_eq, to_lower,
  trim_space, lookup, insert, ltb, ◌==◌, if◌then◌else◌, ℤ, is_some,
}

-- `ProviderInstanceRecord`, without its timestamps.
pub record ProviderInstance : Type 0 where
  pub instance_id : Text
  pub provider_id : Text
  pub name : Text
  pub subtitle : Text
  pub priority : ℤ
  pub activated : Bool

-- The fields of `ModelResolutionCache` for provider instances.
pub record InstanceIndex : Type 0 where
  pub prov_inst : List ProviderInstance
  pub inst_by_id : List (Text × ProviderInstance)
  pub inst_by_lc_alias : List (Text × List Text)
  pub inst_by_lc_name : List (Text × List Text)
  pub inst_loaded : Bool

-- `&ModelResolutionCache{}`
unfoldable pub empty_index : InstanceIndex
empty_index = record {
  prov_inst = [];
  inst_by_id = [];
  inst_by_lc_alias = [];
  inst_by_lc_name = [];
  inst_loaded = false;
}

unfoldable pub normalize_provider_reference : Text → Text
normalize_provider_reference reference = to_lower (trim_space reference)

-- A missing key of a map to slices reads as the empty slice.
unfoldable pub ids_at : Text → List (Text × List Text) → List Text
ids_at k m = elim (lookup k m) [ none ↦ [] | some ids ↦ ids ]

-- `if key != "" { m[key] = append(m[key], id) }`
unfoldable pub append_id : Text → Text → List (Text × List Text) → List (Text × List Text)
unfolding ids_at
append_id key id m = if text_eq key [] then m else insert key (ids_at key m ++ id ∷ []) m

-- The body of the loop over the rows.
unfoldable pub add_row : ProviderInstance → InstanceIndex → InstanceIndex
unfolding append_id normalize_provider_reference
add_row r x = record x {
  prov_inst = x.prov_inst ++ r ∷ [];
  inst_by_id = insert r.instance_id r x.inst_by_id;
  inst_by_lc_alias =
      append_id (normalize_provider_reference r.subtitle) r.instance_id x.inst_by_lc_alias;
  inst_by_lc_name = append_id (normalize_provider_reference r.name) r.instance_id x.inst_by_lc_name;
}

unfoldable pub add_rows : List ProviderInstance → InstanceIndex → InstanceIndex
unfolding add_row
add_rows [] x = x
add_rows (r ∷ rows) x = add_rows rows (add_row r x)

-- `s <= t` on strings, and `slices.Sort` of a slice of strings.
unfoldable pub text_le : Text → Text → Bool
text_le [] t = true
text_le (c ∷ s) [] = false
text_le (c ∷ s) (d ∷ t) = ltb c d || (c == d && text_le s t)

unfoldable pub insert_sorted : Text → List Text → List Text
unfolding text_le
insert_sorted s [] = s ∷ []
insert_sorted s (t ∷ ts) = if text_le s t then s ∷ t ∷ ts else t ∷ insert_sorted s ts

unfoldable pub sort_ids : List Text → List Text
unfolding insert_sorted
sort_ids [] = []
sort_ids (s ∷ ts) = insert_sorted s (sort_ids ts)

unfoldable pub sort_values : List (Text × List Text) → List (Text × List Text)
unfolding sort_ids
sort_values [] = []
sort_values ((k, ids) ∷ m) = (k, sort_ids ids) ∷ sort_values m

-- `loadInstLocked` on what the query returned, `none` for an error.
unfoldable pub load_inst : Option (List ProviderInstance) → InstanceIndex → InstanceIndex
unfolding add_rows sort_values empty_index
load_inst none x = x
load_inst (some rows) x =
    let y = add_rows rows empty_index in
    record y {
      inst_by_lc_alias = sort_values y.inst_by_lc_alias;
      inst_by_lc_name = sort_values y.inst_by_lc_name;
      inst_loaded = true;
    }

unfoldable pub ensure_inst_loaded : Option (List ProviderInstance) → InstanceIndex → InstanceIndex
unfolding load_inst
ensure_inst_loaded rows x = if x.inst_loaded then x else load_inst rows x

unfoldable pub invalidate_instances : InstanceIndex → InstanceIndex
invalidate_instances x = record x { inst_loaded = false }

-- The results of `ResolveProviderReference`.
pub data Reference : Type 0 where
  instance_of : Text → Reference
  ambiguous : Text → List Text → Reference
  not_found : Text → Reference

-- The `switch` on one list of matches; `next` is the round behind it.
unfoldable pub by_matches : Text → List Text → Reference → Reference
by_matches reference [] next = next
by_matches reference (id ∷ []) next = instance_of id
by_matches reference (id ∷ id' ∷ ids) next = ambiguous reference (id ∷ id' ∷ ids)

-- `ResolveProviderReference` on a loaded index.
unfoldable pub resolve_loaded : InstanceIndex → Text → Reference
unfolding by_matches normalize_provider_reference ids_at
resolve_loaded x reference =
    let trimmed = trim_space reference in
    let key = normalize_provider_reference trimmed in
    if is_some (lookup trimmed x.inst_by_id)
    then instance_of trimmed
    else by_matches trimmed (ids_at key x.inst_by_lc_alias)
        (by_matches trimmed (ids_at key x.inst_by_lc_name) (not_found trimmed))

unfoldable pub resolve_provider_reference :
    Option (List ProviderInstance) → InstanceIndex → Text → Reference × InstanceIndex
unfolding resolve_loaded ensure_inst_loaded
resolve_provider_reference rows x reference =
    let y = ensure_inst_loaded rows x in (resolve_loaded y reference, y)
