-- ===== src/Routing/Resolution.antt =====
-- model_resolution.go: the attempts for a requested model, and those of model_resolution_cache.go
-- for virtual models. `Catalog` is the loaded cache.
use omnillm.Prelude.{
  ℕ, suc, Bool, true, false, not, Option, none, some, List, [], ◌∷◌, ◌++◌, Text, text_eq, to_lower,
  lookup, front_at, if◌then◌else◌,
}
use omnillm.Routing.Names.{normalize_model_name, parse_provider_prefix}
use omnillm.Routing.References.{
  InstanceIndex, Reference, instance_of, ambiguous, not_found, resolve_loaded,
}
use omnillm.VirtualModels.Defs.{Upstream, LbStrategy, RrState, order_upstreams}

-- `VirtualModelRecord`, without its timestamps.
pub record VirtualModel : Type 0 where
  pub virtual_model_id : Text
  pub name : Text
  pub description : Text
  pub api_shape : Text
  pub lb_strategy : LbStrategy
  pub enabled : Bool

-- `ModelResolutionCache`, loaded: the maps for virtual models, and those for provider instances.
pub record Catalog : Type 0 where
  pub vm_by_name : List (Text × VirtualModel)
  pub vm_upstreams : List (Text × List Upstream)
  pub instances : InstanceIndex

unfoldable pub get_virtual_model : Catalog → Text → Option VirtualModel
get_virtual_model c name_or_id = lookup (to_lower name_or_id) c.vm_by_name

unfoldable pub get_upstreams : Catalog → Text → List Upstream
get_upstreams c id = elim (lookup id c.vm_upstreams) [ none ↦ [] | some us ↦ us ]

-- `resolvedModelAttempt`
pub record ResolvedAttempt : Type 0 where
  pub requested_model : Text
  pub normalized_model : Text
  pub provider_id : Text
  pub only_if_previous_unavailable : Bool

-- What `resolveRequestedModels` comes to: attempts, the error of an ambiguous provider reference
-- (the reference and its matches), or the panic of `rand.IntN`.
pub data Resolved : Type 0 where
  attempts : List ResolvedAttempt → Resolved
  ambiguous_reference : Text → List Text → Resolved
  panicked : Resolved

unfoldable pub resolve_provider_prefix : Catalog → Text → Reference
unfolding resolve_loaded
resolve_provider_prefix c prefix =
    if text_eq prefix [] then not_found [] else resolve_loaded c.instances prefix

-- `id, err := resolveProviderPrefix(prefix); return id, err == nil`
unfoldable pub lookup_provider_prefix : Catalog → Text → Option Text
lookup_provider_prefix c prefix = elim (resolve_provider_prefix c prefix) [
  | instance_of id ↦ some id
  | ambiguous r ids ↦ none
  | not_found r ↦ none
]

abbrev pub plain_attempt : Text → ResolvedAttempt
plain_attempt m = record {
  requested_model = m;
  normalized_model = normalize_model_name m;
  provider_id = [];
  only_if_previous_unavailable = false;
}

-- The attempt for one upstream, by what its prefix resolves to.
unfoldable pub upstream_attempt_at : Upstream → Option Text → ResolvedAttempt
upstream_attempt_at u none = record (plain_attempt u.model_id) { provider_id = u.provider_id }
upstream_attempt_at u (some instance_id) =
    record (plain_attempt (parse_provider_prefix u.model_id).1) {
      provider_id = if text_eq u.provider_id [] then instance_id else u.provider_id;
    }

unfoldable pub upstream_attempt : Catalog → Upstream → ResolvedAttempt
unfolding upstream_attempt_at
upstream_attempt c u =
    upstream_attempt_at u (lookup_provider_prefix c (parse_provider_prefix u.model_id).0)

unfoldable pub upstream_attempts : Catalog → List Upstream → List ResolvedAttempt
unfolding upstream_attempt
upstream_attempts c [] = []
upstream_attempts c (u ∷ us) = upstream_attempt c u ∷ upstream_attempts c us

-- `appendProviderPrefixFallback`, by what the prefix resolves to.
unfoldable pub append_fallback : List ResolvedAttempt → Text → Reference → Resolved
append_fallback tries bare (instance_of id) =
    if text_eq bare []
    then attempts tries
    else attempts (
        tries
        ++ record (plain_attempt bare) { provider_id = id; only_if_previous_unavailable = true }
          ∷ [])
append_fallback tries bare (ambiguous r ids) =
    if text_eq bare [] then attempts tries else ambiguous_reference r ids
append_fallback tries bare (not_found r) = attempts tries

unfoldable pub append_provider_prefix_fallback : Catalog → List ResolvedAttempt → Text → Resolved
unfolding append_fallback
append_provider_prefix_fallback c tries requested_model =
    let (prefix, bare) = parse_provider_prefix requested_model in
    append_fallback tries bare (resolve_provider_prefix c prefix)

-- The virtual model of a name: of the name itself, else of the normalised one.
unfoldable pub requested_virtual_model : Catalog → Text → Option VirtualModel
unfolding get_virtual_model
requested_virtual_model c requested_model = elim (get_virtual_model c requested_model) [
  | some vm ↦ some vm
  | none ↦
      if text_eq (normalize_model_name requested_model) requested_model
      then none
      else get_virtual_model c (normalize_model_name requested_model)
]

-- The attempts of an enabled virtual model, by the order of its upstreams.
unfoldable pub ordered_attempts : Catalog → Text → Option (List Upstream) → Resolved
unfolding upstream_attempts
ordered_attempts c requested_model none = panicked
ordered_attempts c requested_model (some []) = attempts (plain_attempt requested_model ∷ [])
ordered_attempts c requested_model (some (u ∷ us)) = attempts (upstream_attempts c (u ∷ us))

-- `resolveRequestedModels` on the virtual model that was found.
unfoldable pub resolve_with :
    Catalog → (ℕ → ℕ) → Text → RrState → Option VirtualModel → Resolved × RrState
unfolding append_provider_prefix_fallback ordered_attempts get_upstreams
resolve_with c intn requested_model rr none =
    (append_provider_prefix_fallback c (plain_attempt requested_model ∷ []) requested_model, rr)
resolve_with c intn requested_model rr (some vm) =
    if not vm.enabled
    then (
      append_provider_prefix_fallback c (plain_attempt requested_model ∷ []) requested_model,
      rr,
    )
    else (let upstreams = get_upstreams c vm.virtual_model_id in
        let (ordered, rr') = order_upstreams intn upstreams vm.lb_strategy vm.virtual_model_id rr in
        (ordered_attempts c requested_model ordered, rr'))

-- `resolveRequestedModels`
unfoldable pub resolve_requested_models : Catalog → (ℕ → ℕ) → Text → RrState → Resolved × RrState
unfolding resolve_with requested_virtual_model
resolve_requested_models c intn requested_model rr =
    resolve_with c intn requested_model rr (requested_virtual_model c requested_model)

-- The loop of `preferAffinityAttempt`: the first index other than 0 with the instance.
unfoldable pub affinity_index : ℕ → Text → List ResolvedAttempt → Option ℕ
affinity_index i instance [] = none
affinity_index i instance (a ∷ tries) =
    if text_eq a.provider_id instance then some i else affinity_index (suc i) instance tries

-- `preferAffinityAttempt`, by what the affinity cache returned.
unfoldable pub prefer_affinity_attempt : Option Text → List ResolvedAttempt → List ResolvedAttempt
unfolding affinity_index
prefer_affinity_attempt none tries = tries
prefer_affinity_attempt (some instance) [] = []
prefer_affinity_attempt (some instance) (a ∷ tries) = elim (affinity_index 1 instance tries) [
  | none ↦ a ∷ tries
  | some i ↦ front_at i (a ∷ tries)
]

-- `resolveRequestedModelsForRequest`
unfoldable pub resolve_requested_models_for_request :
    Catalog → (ℕ → ℕ) → Option Text → Text → RrState → Resolved × RrState
unfolding prefer_affinity_attempt
resolve_requested_models_for_request c intn pinned requested_model rr =
    let (r, rr') = resolve_requested_models c intn requested_model rr in
    (
      elim r [
        | attempts tries ↦ attempts (prefer_affinity_attempt pinned tries)
        | ambiguous_reference ref ids ↦ ambiguous_reference ref ids
        | panicked ↦ panicked
      ],
      rr',
    )
