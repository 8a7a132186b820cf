-- ===== src/Registry/Saves.antt =====
-- `saveConfigAsync`: the rows that the registry writes to the table of provider instances.
use omnillm.Prelude.{
  ap, sym, subst, ◌∙◌, Bool-cases, inl, inr, lookup-insert_self, ◌≡◌, refl, Bool, true, false,
  Option, none, some, List, [], ◌∷◌, Text, arith, text_eq, text_eq_iff, lookup, insert, is_some,
  IsMap, lookup-insert, if◌then◌else◌, pos,
}
use omnillm.Registry.Defs.{IdSet}
use omnillm.Routing.References.{ProviderInstance}

unfoldable pub non_empty_or : Text → Text → Text
non_empty_or [] default = default
non_empty_or (c ∷ t) default = c ∷ t

module _ {P : Type 0} (get_id get_name : P → Text) where
  -- The row for a registered provider, by its row in the table.
  unfoldable pub row_of : Text → P → Bool → Option ProviderInstance → ProviderInstance
  unfolding non_empty_or
  row_of id provider is_active none = record {
    instance_id = id;
    provider_id = get_id provider;
    name = get_name provider;
    subtitle = [];
    priority = pos 0;
    activated = is_active;
  }
  row_of id provider is_active (some existing) = record {
    instance_id = id;
    provider_id = get_id provider;
    name = non_empty_or existing.name (get_name provider);
    subtitle = existing.subtitle;
    priority = existing.priority;
    activated = is_active;
  }

  -- `existing, err := pr.instanceStore.Get(id)`: a row that cannot be read counts as none.
  unfoldable pub read_row : Bool → Option ProviderInstance → Option ProviderInstance
  read_row true row = row
  read_row false row = none

  -- The loop of `saveConfigAsync` over the snapshot of the providers, the table being a map by
  -- instance ID; `readable` says for which IDs `Get` returns no error, `saved` for which IDs the
  -- table takes the row.
  unfoldable pub save_config :
      (Text → Bool)
      → (Text → Bool)
      → IdSet
      → List (Text × P)
      → List (Text × ProviderInstance)
      → List (Text × ProviderInstance)
  unfolding row_of read_row
  save_config readable saved active [] table = table
  save_config readable saved active ((id, provider) ∷ providers) table =
      save_config readable saved active providers (
        if saved id
        then insert id
            (row_of id provider (is_some (lookup id active))
              (read_row (readable id) (lookup id table)))
            table
        else table)

  -- What is saved under an ID, in one step.
  unfoldable saved_row :
      (Text → Bool)
      → (Text → Bool)
      → IdSet
      → Option P
      → Text
      → Option ProviderInstance
      → Option ProviderInstance
  saved_row readable saved active none id row = row
  saved_row readable saved active (some provider) id row =
      if saved id
      then some (row_of id provider (is_some (lookup id active)) (read_row (readable id) row))
      else row

  -- The table behind one row.
  lookup-save_one :
      (b : Bool) (r : ProviderInstance) (table : List (Text × ProviderInstance)) (id : Text)
      → lookup id (if b then insert id r table else table) ≡ (if b then some r else lookup id table)
  lookup-save_one true r table id = lookup-insert_self id r table
  lookup-save_one false r table id = refl

  lookup-save_other :
      (b : Bool) (r : ProviderInstance) (table : List (Text × ProviderInstance)) (j id : Text)
      → text_eq j id ≡ false
      → lookup id (if b then insert j r table else table) ≡ lookup id table
  lookup-save_other true r table j id ne = ground (arith, lookup-insert j id r table)
  lookup-save_other false r table j id ne = refl

  lookup-saved_row :
      (readable : Text → Bool) (saved : Text → Bool) (active : IdSet) (providers : List (Text × P))
      (table : List (Text × ProviderInstance)) (id : Text)
      → IsMap providers
      → lookup id (save_config readable saved active providers table)
        ≡ saved_row readable saved active (lookup id providers) id (lookup id table)
  unfolding save_config saved_row lookup
  lookup-saved_row readable saved active [] table id h = refl
  lookup-saved_row readable saved active ((j, p) ∷ providers) table id (fresh, h) =
      elim (Bool-cases (text_eq j id)) [
        | inl e ↦
            lookup-saved_row readable saved active providers _ id h
            ∙ subst
                (λ k.
                  lookup k providers ≡ none
                  → saved_row readable saved active (lookup id providers) id (
                      lookup id (
                        if saved k
                        then insert k
                            (row_of k p (is_some (lookup k active))
                              (read_row (readable k) (lookup k table)))
                            table
                        else table))
                    ≡ saved_row readable saved active (some p) id (lookup id table))
                (sym ((text_eq_iff j id).0 e))
                (λ none_left.
                  ap
                    (λ o. saved_row readable saved active o id (
                      lookup id (
                        if saved id
                        then insert id
                            (row_of id p (is_some (lookup id active))
                              (read_row (readable id) (lookup id table)))
                            table
                        else table)))
                    none_left
                  ∙ lookup-save_one (saved id) _ table id)
                fresh
            ∙ ap
                (λ (b : Bool).
                  saved_row readable saved active (if b then some p else lookup id providers) id
                    (lookup id table))
                (sym e)
        | inr ne ↦
            lookup-saved_row readable saved active providers _ id h
            ∙ ap (λ o. saved_row readable saved active (lookup id providers) id o)
                (lookup-save_other (saved j) _ table j id ne)
            ∙ ap
                (λ (b : Bool).
                  saved_row readable saved active (if b then some p else lookup id providers) id
                    (lookup id table))
                (sym ne)
      ]

  -- The name that a row gets, by the name that it had and the provider's own.
  abbrev pub IsNamed : Text → Text → Text → Type 0
  IsNamed [] own name = name ≡ own
  IsNamed (c ∷ old) own name = name ≡ c ∷ old

  -- The row that a provider gets when none could be read.
  abbrev pub IsFresh : Bool → P → Text → Option ProviderInstance → Type 0
  IsFresh active p id after =
      after
      ≡ some (record {
        instance_id = id;
        provider_id = get_id p;
        name = get_name p;
        subtitle = [];
        priority = pos 0;
        activated = active;
      })

  -- What a save may leave under an ID, by whether the table takes the row, whether it gives the old
  -- one, whether the ID is active, the provider registered under it, and the row before.
  abbrev pub IsSaved :
      Bool
      → Bool
      → Bool
      → Option P
      → Text
      → Option ProviderInstance
      → Option ProviderInstance
      → Type 0
  IsSaved takes gives active none id before after = after ≡ before
  IsSaved false gives active (some p) id before after = after ≡ before
  IsSaved true true active (some p) id (some before) after =
      (row : ProviderInstance) × (after ≡ some row)
      × (row.instance_id ≡ id)
      × (row.provider_id ≡ get_id p)
      × IsNamed before.name (get_name p) row.name
      × (row.subtitle ≡ before.subtitle)
      × (row.priority ≡ before.priority)
      × (row.activated ≡ active)
  IsSaved true true active (some p) id none after = IsFresh active p id after
  IsSaved true false active (some p) id before after = IsFresh active p id after

  non_empty_or-IsNamed : (old own : Text) → IsNamed old own (non_empty_or old own)
  unfolding non_empty_or
  non_empty_or-IsNamed [] own = refl
  non_empty_or-IsNamed (c ∷ old) own = refl

  row-IsSaved :
      (takes gives active : Bool) (p : P) (id : Text) (before : Option ProviderInstance)
      → IsSaved takes gives active
          (some p)
          id
          before
          (if takes then some (row_of id p active (read_row gives before)) else before)
  unfolding row_of read_row
  row-IsSaved false gives active p id before = refl
  row-IsSaved true true active p id (some before) =
      (_, refl, refl, refl, non_empty_or-IsNamed before.name (get_name p), refl, refl, refl)
  row-IsSaved true true active p id none = refl
  row-IsSaved true false active p id before = refl

  saved_row-IsSaved :
      (readable saved : Text → Bool) (active : IdSet) (o : Option P) (id : Text)
      (before : Option ProviderInstance)
      → IsSaved
          (saved id)
          (readable id)
          (is_some (lookup id active))
          o
          id
          before
          (saved_row readable saved active o id before)
  unfolding saved_row
  saved_row-IsSaved readable saved active none id before = refl
  saved_row-IsSaved readable saved active (some p) id before =
      row-IsSaved (saved id) (readable id) (is_some (lookup id active)) p id before

  -- Behind a save of a registry in which no ID stands twice, the row of an ID is as before if the
  -- ID is not registered or the table refuses it. Else it has the ID, names the provider that was
  -- registered under the ID, and is activated exactly if the ID was active; if there was a row that
  -- could be read, it keeps its name (unless blank), its subtitle and its priority, and if not it
  -- has the name of the provider, no subtitle and priority 0.
  pub lookup-save_config :
      (readable saved : Text → Bool) (active : IdSet) (providers : List (Text × P))
      (table : List (Text × ProviderInstance)) (id : Text)
      → IsMap providers
      → IsSaved
          (saved id)
          (readable id)
          (is_some (lookup id active))
          (lookup id providers)
          id
          (lookup id table)
          (lookup id (save_config readable saved active providers table))
  lookup-save_config readable saved active providers table id h =
      subst
        (λ after.
          IsSaved (saved id) (readable id) (is_some (lookup id active)) (lookup id providers) id
            (lookup id table) after)
        (sym (lookup-saved_row readable saved active providers table id h))
        (saved_row-IsSaved readable saved active (lookup id providers) id (lookup id table))
