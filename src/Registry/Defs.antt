-- ===== src/Registry/Defs.antt =====
-- registry.go: `ProviderRegistry` and its methods. Providers are of a type `P`, whose methods
-- `GetInstanceID` and `GetID` are arguments. A `range` over the active IDs visits them in the order
-- of a list that is an argument.
use omnillm.Prelude.{
  ℕ, suc, ◌+◌, ◌%◌, ◌^◌, Bool, true, false, Option, none, some, List, [], ◌∷◌, Text, text_eq,
  lookup, insert, delete, is_some, if◌then◌else◌,
}

-- `catalogstate.Version`
pub record Version : Type 0 where
  pub lifecycle : ℕ
  pub refresh : ℕ

-- `catalogstate.Current`: a missing key reads as the zero version.
unfoldable pub current : Text → List (Text × Version) → Version
current id versions = elim (lookup id versions) [
  | none ↦ record { lifecycle = 0; refresh = 0 }
  | some v ↦ v
]

-- `catalogstate.Invalidate`
unfoldable pub invalidate : Text → List (Text × Version) → List (Text × Version)
unfolding current
invalidate id versions =
    let v = current id versions in
    insert id (record v { lifecycle = (v.lifecycle + 1) % 2 ^ 64 }) versions

-- `catalogstate.Refresh`
unfoldable pub refresh_catalog : Text → List (Text × Version) → List (Text × Version)
unfolding current
refresh_catalog id versions =
    let v = current id versions in
    insert id (record v { refresh = (v.refresh + 1) % 2 ^ 64 }) versions

-- `map[string]struct{}`
abbrev pub IdSet : Type 0
IdSet = List {0} (Text × Unit)

-- `Rename` keeps the activation: the keys of the active IDs.
unfoldable pub rename_active : Text → Text → IdSet → IdSet
rename_active old new active =
    if is_some (lookup old active) then insert new tt (delete old active) else active

-- How `Rename` ends.
pub data RenameResult : Type 0 where
  renamed : RenameResult
  old_not_found : RenameResult
  new_exists : RenameResult

-- `ProviderRegistry`; `versions` is the state of catalogstate, and `scheduled` counts the saves
-- that were started in the background.
pub record ProviderRegistry (P : Type 0) : Type 0 where
  pub providers : List (Text × P)
  pub active_provider : Option P
  pub active_providers : IdSet
  pub versions : List (Text × Version)
  pub scheduled : ℕ

module _ {P : Type 0} where
  -- `saveConfigInBackground`
  unfoldable pub save_config_in_background : ProviderRegistry P → ProviderRegistry P
  save_config_in_background pr = record pr { scheduled = suc pr.scheduled }

  -- `Register`
  unfoldable pub register : (P → Text) → P → Bool → ProviderRegistry P → ProviderRegistry P
  unfolding save_config_in_background
  register instance_id provider save_config pr =
      let pr' : ProviderRegistry P = record pr {
        versions = invalidate (instance_id provider) pr.versions;
        providers = insert (instance_id provider) provider pr.providers;
      } in
      if save_config then save_config_in_background pr' else pr'

  -- `GetProvider`
  unfoldable pub get_provider : Text → ProviderRegistry P → Option P
  get_provider id pr = lookup id pr.providers

  -- `SetActive`, by what is registered under the ID.
  unfoldable pub set_active_to :
      Text → Option P → ProviderRegistry P → Option P × ProviderRegistry P
  unfolding save_config_in_background
  set_active_to id none pr = (none, pr)
  set_active_to id (some provider) pr = (
    some provider,
    save_config_in_background (record pr {
      active_provider = some provider;
      active_providers = insert id tt pr.active_providers;
    }),
  )

  unfoldable pub set_active : Text → ProviderRegistry P → Option P × ProviderRegistry P
  unfolding set_active_to
  set_active id pr = set_active_to id (lookup id pr.providers) pr

  -- `if pr.activeProvider == nil { pr.activeProvider = provider }`
  unfoldable pub or_provider : Option P → P → Option P
  or_provider none provider = some provider
  or_provider (some p) provider = some p

  -- `AddActive`, by what is registered under the ID.
  unfoldable pub add_active_to :
      Text → Option P → ProviderRegistry P → Option P × ProviderRegistry P
  unfolding save_config_in_background or_provider
  add_active_to id none pr = (none, pr)
  add_active_to id (some provider) pr = (
    some provider,
    save_config_in_background (record pr {
      active_provider = or_provider pr.active_provider provider;
      active_providers = insert id tt pr.active_providers;
    }),
  )

  unfoldable pub add_active : Text → ProviderRegistry P → Option P × ProviderRegistry P
  unfolding add_active_to
  add_active id pr = add_active_to id (lookup id pr.providers) pr

  -- The loop that picks another primary provider, over the active IDs in the order of the range.
  unfoldable pub pick_active : List Text → List (Text × P) → Option P
  pick_active [] providers = none
  pick_active (id ∷ ids) providers = elim (lookup id providers) [
    | none ↦ pick_active ids providers
    | some provider ↦ some provider
  ]

  -- The primary provider when `id` is no longer active.
  unfoldable pub primary_without :
      (P → Text) → List Text → Text → List (Text × P) → Option P → Option P
  unfolding pick_active
  primary_without instance_id ranged id providers none = none
  primary_without instance_id ranged id providers (some p) =
      if text_eq (instance_id p) id then pick_active ranged providers else some p

  -- `RemoveActive`
  unfoldable pub remove_active :
      (P → Text) → List Text → Text → ProviderRegistry P → ProviderRegistry P
  unfolding save_config_in_background primary_without
  remove_active instance_id ranged id pr = save_config_in_background (record pr {
    active_providers = delete id pr.active_providers;
    active_provider = primary_without instance_id ranged id pr.providers pr.active_provider;
  })

  -- `Rename`, by what is registered under the two IDs.
  unfoldable pub rename_to :
      Text → Text → Option P → Option P → ProviderRegistry P → RenameResult × ProviderRegistry P
  unfolding save_config_in_background rename_active
  rename_to old new none taken pr = (old_not_found, pr)
  rename_to old new (some provider) (some other) pr = (new_exists, pr)
  rename_to old new (some provider) none pr = (
    renamed,
    save_config_in_background (record pr {
      versions = invalidate new (invalidate old pr.versions);
      providers = insert new provider (delete old pr.providers);
      active_providers = rename_active old new pr.active_providers;
    }),
  )

  unfoldable pub rename : Text → Text → ProviderRegistry P → RenameResult × ProviderRegistry P
  unfolding rename_to
  rename old new pr = rename_to old new (lookup old pr.providers) (lookup new pr.providers) pr

  -- `Remove`, by what is registered under the ID; `false` is its error. The token of the instance
  -- is deleted from the token store, and an error of that is only logged.
  unfoldable pub remove_from :
      (P → Text) → List Text → Text → Option P → ProviderRegistry P → Bool × ProviderRegistry P
  unfolding save_config_in_background primary_without
  remove_from instance_id ranged id none pr = (false, pr)
  remove_from instance_id ranged id (some provider) pr = (
    true,
    save_config_in_background (record pr {
      versions = invalidate id pr.versions;
      providers = delete id pr.providers;
      active_providers = delete id pr.active_providers;
      active_provider =
          primary_without instance_id ranged id (delete id pr.providers) pr.active_provider;
    }),
  )

  unfoldable pub remove :
      (P → Text) → List Text → Text → ProviderRegistry P → Bool × ProviderRegistry P
  unfolding remove_from
  remove instance_id ranged id pr = remove_from instance_id ranged id (lookup id pr.providers) pr

  -- `GetActiveProviders`, in the order of the range.
  unfoldable pub get_active_providers : List Text → ProviderRegistry P → List P
  get_active_providers [] pr = []
  get_active_providers (id ∷ ids) pr =
      let rest = get_active_providers ids pr in
      elim (lookup id pr.providers) [ none ↦ rest | some provider ↦ provider ∷ rest ]

  -- `IsActiveProvider` and `IsRegistered`
  unfoldable pub is_active_provider : Text → ProviderRegistry P → Bool
  is_active_provider id pr = is_some (lookup id pr.active_providers)

  unfoldable pub is_registered : Text → ProviderRegistry P → Bool
  is_registered id pr = is_some (lookup id pr.providers)

  -- `GetInstancesOfType`, over the registered providers in the order of the map.
  unfoldable pub get_instances_of_type : (P → Text) → Text → List (Text × P) → List P
  get_instances_of_type get_id provider_type [] = []
  get_instances_of_type get_id provider_type ((id, provider) ∷ providers) =
      let rest = get_instances_of_type get_id provider_type providers in
      if text_eq (get_id provider) provider_type then provider ∷ rest else rest
