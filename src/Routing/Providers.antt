-- ===== src/Routing/Providers.antt =====
-- modelrouting.go: `resolveProvidersForOperation`, from the name of a model to the providers that may
-- serve it. `GetModels` of a provider, through the catalog cache, and the table of disabled models
-- are arguments, and so is the order in which Go ranges over the map of models by provider.
use omnillm.Prelude.{
  is_nil, Bool, true, false, not, ◌&&◌, ◌||◌, Option, none, some, List, [], ◌∷◌, ◌++◌, Text, codes,
  text_eq, lookup, insert, member, ltb, ◌==◌, if◌then◌else◌, ℤ, pos, negsuc,
}
use omnillm.Dispatch.Defs.{ResolveError, unsupported, failed, Result, ok, err}
use omnillm.Routing.References.{ProviderInstance, text_le}
use omnillm.ToolArguments.Schemas.{
  null, boolean, number, string, array, object, Items, no_items, item,
}

-- A value of `Capabilities`, by its Go type.
pub data Capability : Type 0 where
  strings : List Text → Capability
  values : Items → Capability
  other_capability : Capability

-- `types.Model`, as routing reads it; a nil map is `none`.
pub record Model : Type 0 where
  pub id : Text
  pub name : Text
  pub provider : Text
  pub capabilities : Option (List (Text × Capability))

-- `types.Provider`; `native` says that it implements `systemone.Evaluator`.
pub record ModelProvider : Type 0 where
  pub id : Text
  pub instance_id : Text
  pub native : Bool

-- `ResolvedModelRoute`
pub record ResolvedModelRoute : Type 0 where
  pub selected_model : Option Model
  pub candidate_providers : List ModelProvider
  pub available_models : List Model

-- The loop over an `[]interface{}`: the strings that are not empty.
unfoldable pub text_items : Items → List Text
text_items no_items = []
text_items (item (string s) items) =
    let rest = text_items items in if text_eq s [] then rest else s ∷ rest
text_items (item null items) = text_items items
text_items (item (boolean b) items) = text_items items
text_items (item (number n) items) = text_items items
text_items (item (array a) items) = text_items items
text_items (item (object o) items) = text_items items

abbrev pub modes_of : Option Capability → List Text
modes_of none = []
modes_of (some (strings texts)) = texts
modes_of (some (values items)) = text_items items
modes_of (some other_capability) = []

-- `modelAPIModes`
unfoldable pub model_api_modes : Model → List Text
unfolding text_items
model_api_modes m = elim m.capabilities [
  | none ↦ []
  | some capabilities ↦ modes_of (lookup (codes "api_modes") capabilities)
]

-- The models of a catalog that are not disabled.
unfoldable pub enabled_models : (Text → Bool) → List Model → List Model
enabled_models disabled [] = []
enabled_models disabled (m ∷ ms) =
    let rest = enabled_models disabled ms in if not (disabled m.id) then m ∷ rest else rest

-- What a provider puts into the map; a provider whose models cannot be had is skipped.
abbrev pub put_models :
    (Text → Bool) → Text → Option (List Model) → List (Text × List Model) → List (Text × List Model)
put_models disabled id none m = m
put_models disabled id (some models) m = insert id (enabled_models disabled models) m

-- `GetEnabledModelsByProvider`, from the map of the providers before.
unfoldable pub get_enabled_models_by_provider :
    (ModelProvider → Option (List Model))
    → (Text → Text → Bool)
    → List ModelProvider
    → List (Text × List Model)
    → List (Text × List Model)
unfolding enabled_models
get_enabled_models_by_provider catalog disabled [] m = m
get_enabled_models_by_provider catalog disabled (p ∷ ps) m =
    get_enabled_models_by_provider catalog disabled ps
      (put_models (disabled p.instance_id) p.instance_id (catalog p) m)

-- `modelsByProvider[id]`; a missing key reads as no models.
abbrev pub models_at : Option (List Model) → List Model
models_at none = []
models_at (some models) = models

-- The loop that collects the available models, in the order of the range.
unfoldable pub collect_models : List Text → List (Text × List Model) → List Model
collect_models [] m = []
collect_models (id ∷ order) m = models_at (lookup id m) ++ collect_models order m

-- `model.ID == requestedModel || model.ID == normalizedModel`
unfoldable pub is_named : Text → Text → Model → Bool
is_named requested normalized m = text_eq m.id requested || text_eq m.id normalized

unfoldable pub find_model : Text → Text → List Model → Option Model
unfolding is_named
find_model requested normalized [] = none
find_model requested normalized (m ∷ ms) =
    if is_named requested normalized m then some m else find_model requested normalized ms

-- The guard on the modes of a model that Alibaba serves.
unfoldable pub lacks_mode : ModelProvider → List Text → Bool
lacks_mode p modes =
    text_eq p.id (codes "alibaba")
    && not (is_nil modes)
    && not (member (codes "openai-compatible") modes)

-- The inner loop over the models of a provider: it is a candidate.
unfoldable pub is_candidate : Text → Text → List Text → ModelProvider → List Model → Bool
unfolding is_named lacks_mode
is_candidate requested normalized modes p [] = false
is_candidate requested normalized modes p (m ∷ ms) =
    let rest = is_candidate requested normalized modes p ms in
    if not (is_named requested normalized m)
    then rest
    else if lacks_mode p modes
    then rest
    else true

unfoldable pub find_candidates :
    Text → Text → List Text → List (Text × List Model) → List ModelProvider → List ModelProvider
unfolding is_candidate
find_candidates requested normalized modes m [] = []
find_candidates requested normalized modes m (p ∷ ps) =
    let rest = find_candidates requested normalized modes m ps in
    if is_candidate requested normalized modes p (models_at (lookup p.instance_id m))
    then p ∷ rest
    else rest

-- `priorityMap`, and a read of it: a missing key is 0.
unfoldable pub priority_map : List ProviderInstance → List (Text × ℤ) → List (Text × ℤ)
priority_map [] m = m
priority_map (r ∷ rows) m = priority_map rows (insert r.instance_id r.priority m)

abbrev pub or_default : Option ℤ → ℤ
or_default none = pos 0
or_default (some n) = n

unfoldable pub priority_of : List ProviderInstance → Text → ℤ
unfolding priority_map
priority_of rows id = or_default (lookup id (priority_map rows []))

unfoldable pub int_lt : ℤ → ℤ → Bool
int_lt (pos m) (pos n) = ltb m n
int_lt (pos m) (negsuc n) = false
int_lt (negsuc m) (pos n) = true
int_lt (negsuc m) (negsuc n) = ltb n m

unfoldable pub int_eq : ℤ → ℤ → Bool
int_eq (pos m) (pos n) = m == n
int_eq (pos m) (negsuc n) = false
int_eq (negsuc m) (pos n) = false
int_eq (negsuc m) (negsuc n) = m == n

-- The order of `SortProvidersByPriority`, on two providers.
unfoldable pub provider_less : List ProviderInstance → ModelProvider → ModelProvider → Bool
unfolding priority_of int_eq int_lt text_le
provider_less rows p q =
    let pi = priority_of rows p.instance_id in
    let pj = priority_of rows q.instance_id in
    if not (int_eq pi pj) then int_lt pi pj else not (text_le q.instance_id p.instance_id)

unfoldable pub insert_provider :
    List ProviderInstance → ModelProvider → List ModelProvider → List ModelProvider
unfolding provider_less
insert_provider rows p [] = p ∷ []
insert_provider rows p (q ∷ qs) =
    if provider_less rows q p then q ∷ insert_provider rows p qs else p ∷ q ∷ qs

-- `SortProvidersByPriority`
unfoldable pub sort_providers_by_priority :
    List ProviderInstance → List ModelProvider → List ModelProvider
unfolding insert_provider
sort_providers_by_priority rows [] = []
sort_providers_by_priority rows (p ∷ ps) =
    insert_provider rows p (sort_providers_by_priority rows ps)

unfoldable pub bool_eq : Bool → Bool → Bool
bool_eq true b = b
bool_eq false b = not b

-- The first loop: the active providers of the kind, or `ErrUnsupported` (`none`).
unfoldable pub of_kind : Bool → Text → List ModelProvider → Option (List ModelProvider)
unfolding bool_eq
of_kind evaluation id [] = some []
of_kind evaluation id (p ∷ ps) =
    let rest = of_kind evaluation id ps in
    if bool_eq p.native evaluation
    then elim rest [ none ↦ none | some qs ↦ some (p ∷ qs) ]
    else if text_eq p.instance_id id && not evaluation
    then none
    else rest

-- The loop that filters for the provider that is asked for.
unfoldable pub find_provider : Text → List ModelProvider → Option ModelProvider
find_provider id [] = none
find_provider id (p ∷ ps) = if text_eq p.instance_id id then some p else find_provider id ps

-- What resolution reads besides the request: the active providers, the catalogs, the disabled
-- models, the order of the range, and the rows of `GetAllProviderInstances`.
pub record Sources : Type 0 where
  pub active : List ModelProvider
  pub catalog : ModelProvider → Option (List Model)
  pub disabled : Text → Text → Bool
  pub order : List Text
  pub rows : List ProviderInstance

-- The route, by the model that is selected.
unfoldable pub route_to :
    Sources
    → Text
    → Text
    → List ModelProvider
    → List (Text × List Model)
    → List Model
    → Option Model
    → ResolvedModelRoute
unfolding model_api_modes find_candidates sort_providers_by_priority
route_to src requested normalized ps m available none = record {
  selected_model = none;
  candidate_providers = [];
  available_models = available;
}
route_to src requested normalized ps m available (some model) = record {
  selected_model = some model;
  candidate_providers =
      sort_providers_by_priority src.rows
        (find_candidates requested normalized (model_api_modes model) m ps);
  available_models = available;
}

-- Behind the filters: the model among those available, and its candidates.
unfoldable pub select_route :
    Sources → Text → Text → List ModelProvider → List (Text × List Model) → ResolvedModelRoute
unfolding collect_models find_model route_to
select_route src requested normalized ps m =
    let available = collect_models src.order m in
    route_to src requested normalized ps m available (find_model requested normalized available)

abbrev pub no_route : ResolvedModelRoute
no_route = record { selected_model = none; candidate_providers = []; available_models = [] }

-- The route to a provider that is asked for, whose catalog is not read.
abbrev pub pinned_route : Text → Option ModelProvider → ResolvedModelRoute
pinned_route requested none = no_route
pinned_route requested (some p) = record {
  selected_model =
      some (record {
        id = requested;
        name = requested;
        provider = p.instance_id;
        capabilities = none;
      });
  candidate_providers = p ∷ [];
  available_models = [];
}

-- Behind the first loop.
unfoldable pub resolve_kind :
    Sources → Text → Text → Text → List ModelProvider → Result ResolveError ResolvedModelRoute
unfolding find_provider get_enabled_models_by_provider select_route
resolve_kind src requested normalized id ps =
    if not (text_eq id [])
    then ok (pinned_route requested (find_provider id ps))
    else if is_nil ps
    then (if is_nil src.active
        then err (failed (codes "no active providers available"))
        else ok no_route)
    else ok (
        select_route src requested normalized ps
          (get_enabled_models_by_provider src.catalog src.disabled ps []))

unfoldable pub resolve_of_kind :
    Sources
    → Text
    → Text
    → Text
    → Option (List ModelProvider)
    → Result ResolveError ResolvedModelRoute
unfolding resolve_kind
resolve_of_kind src requested normalized id none = err unsupported
resolve_of_kind src requested normalized id (some ps) = resolve_kind src requested normalized id ps

-- `resolveProvidersForOperation`
unfoldable pub resolve_providers_for_operation :
    Sources → Text → Text → Text → Bool → Result ResolveError ResolvedModelRoute
unfolding of_kind resolve_of_kind
resolve_providers_for_operation src requested normalized id evaluation =
    resolve_of_kind src requested normalized id (of_kind evaluation id src.active)
