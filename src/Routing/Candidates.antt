-- ===== src/Routing/Candidates.antt =====
-- Which providers `resolveProvidersForOperation` gives for a model.
use omnillm.Prelude.{
  is_nil, ◌≡◌, refl, ap, subst, ◌∙◌, Bool, false, not, ◌&&◌, ◌||◌, Option, none, some, List, [],
  ◌∷◌, Perm, Text, arith, text_eq, text_eq_iff, lookup, lookup-insert, lookup-insert_self, All,
  keep, keep-All, keep-cong, keep-keep, Bool-cases, Option-cases, inl, inr, if_cases, if◌then◌else◌,
}
use omnillm.Dispatch.Defs.{ResolveError, Result, ok, err}
use omnillm.Routing.Priorities.{
  IsOrdered, sort_providers_by_priority-perm, sort_providers_by_priority-IsOrdered,
}
use omnillm.Routing.Providers.{
  Model, ModelProvider, ResolvedModelRoute, Sources, model_api_modes, enabled_models, put_models,
  get_enabled_models_by_provider, models_at, collect_models, is_named, find_model, lacks_mode,
  is_candidate, find_candidates, sort_providers_by_priority, bool_eq, of_kind, select_route,
  route_to, resolve_kind, resolve_of_kind, resolve_providers_for_operation,
}

-- Active providers have different instance IDs.
abbrev pub IsUnique : List ModelProvider → Type 0
IsUnique [] = Unit
IsUnique (p ∷ ps) = All (λ q. text_eq p.instance_id q.instance_id ≡ false) ps × IsUnique ps

-- The models that a provider serves: those of its catalog that are not disabled.
unfoldable pub served : Sources → ModelProvider → List Model
served src p = elim (src.catalog p) [
  | none ↦ []
  | some models ↦ enabled_models (src.disabled p.instance_id) models
]

-- Some model of the list has a name that is asked for.
unfoldable pub any_named : Text → Text → List Model → Bool
any_named requested normalized [] = false
any_named requested normalized (m ∷ ms) =
    is_named requested normalized m || any_named requested normalized ms

-- The provider is of the kind, serves a model of the name, and has the mode that is required.
abbrev pub can_serve : Sources → Text → Text → Bool → List Text → ModelProvider → Bool
can_serve src requested normalized evaluation modes p =
    bool_eq p.native evaluation
    && (any_named requested normalized (served src p) && not (lacks_mode p modes))

is_candidate-any_named :
    (requested normalized : Text) (modes : List Text) (p : ModelProvider) (ms : List Model)
    → is_candidate requested normalized modes p ms
      ≡ (any_named requested normalized ms && not (lacks_mode p modes))
unfolding is_candidate any_named
is_candidate-any_named requested normalized modes p [] = refl
is_candidate-any_named requested normalized modes p (m ∷ ms) =
    ground (arith, is_candidate-any_named requested normalized modes p ms)

find_candidates-keep :
    (requested normalized : Text) (modes : List Text) (m : List (Text × List Model))
    (ps : List ModelProvider)
    → find_candidates requested normalized modes m ps
      ≡ keep
          (λ p. is_candidate requested normalized modes p (models_at (lookup p.instance_id m)))
          ps
unfolding find_candidates
find_candidates-keep requested normalized modes m [] = refl
find_candidates-keep requested normalized modes m (p ∷ ps) =
    rw (find_candidates-keep requested normalized modes m ps) refl

pub of_kind-keep :
    (evaluation : Bool) (id : Text) (ps qs : List ModelProvider)
    → of_kind evaluation id ps ≡ some qs
    → qs ≡ keep (λ p. bool_eq p.native evaluation) ps
unfolding of_kind
of_kind-keep evaluation id [] qs h = ground arith
of_kind-keep evaluation id (p ∷ ps) qs h = elim (Option-cases (of_kind evaluation id ps)) [
  | inl e ↦ ground arith
  | inr (rs, e) ↦
      subst (λ l. qs ≡ (if bool_eq p.native evaluation then p ∷ l else l))
        (of_kind-keep evaluation id ps rs e) (ground arith)
]

put_models-lookup :
    (disabled : Text → Bool) (id other : Text) (ms : Option (List Model))
    (m : List (Text × List Model))
    → text_eq id other ≡ false
    → lookup other (put_models disabled id ms m) ≡ lookup other m
put_models-lookup disabled id other none m h = refl
put_models-lookup disabled id other (some ms) m h =
    ground (arith, lookup-insert id other (enabled_models disabled ms) m)

-- A provider whose ID the others do not have is left alone.
others-lookup :
    (src : Sources) (id : Text) (ps : List ModelProvider) (m : List (Text × List Model))
    → All (λ q. text_eq id q.instance_id ≡ false) ps
    → lookup id (get_enabled_models_by_provider src.catalog src.disabled ps m) ≡ lookup id m
unfolding get_enabled_models_by_provider
others-lookup src id [] m h = refl
others-lookup src id (p ∷ ps) m (ne, h) =
    others-lookup src id ps
      (put_models (src.disabled p.instance_id) p.instance_id (src.catalog p) m) h
    ∙ put_models-lookup (src.disabled p.instance_id) p.instance_id id (src.catalog p) m
        (ground (arith, text_eq_iff p.instance_id id, text_eq_iff id p.instance_id))

put_models-at :
    (disabled : Text → Bool) (id : Text) (ms : Option (List Model)) (m : List (Text × List Model))
    → lookup id m ≡ none
    → models_at (lookup id (put_models disabled id ms m))
      ≡ elim ms [ none ↦ [] | some models ↦ enabled_models disabled models ]
put_models-at disabled id none m h = rw h refl
put_models-at disabled id (some models) m h =
    rw (lookup-insert_self id (enabled_models disabled models) m) refl

fresh-put_models :
    (src : Sources) (p : ModelProvider) (ps : List ModelProvider) (m : List (Text × List Model))
    → All (λ q. text_eq p.instance_id q.instance_id ≡ false) ps
    → All (λ q. lookup q.instance_id m ≡ none) ps
    → All
        (λ q.
          lookup q.instance_id
            (put_models (src.disabled p.instance_id) p.instance_id (src.catalog p) m)
          ≡ none)
        ps
fresh-put_models src p [] m h k = tt
fresh-put_models src p (q ∷ ps) m (ne, h) (n, k) = (
  put_models-lookup (src.disabled p.instance_id) p.instance_id q.instance_id (src.catalog p) m ne
      ∙ n,
  fresh-put_models src p ps m h k,
)

pub get_enabled-served :
    (src : Sources) (ps : List ModelProvider) (m : List (Text × List Model))
    → IsUnique ps
    → All (λ p. lookup p.instance_id m ≡ none) ps
    → All
        (λ p.
          models_at
            (lookup p.instance_id (get_enabled_models_by_provider src.catalog src.disabled ps m))
          ≡ served src p)
        ps
unfolding get_enabled_models_by_provider served
get_enabled-served src [] m u h = tt
get_enabled-served src (p ∷ ps) m (ne, u) (n, h) =
    let m' = put_models (src.disabled p.instance_id) p.instance_id (src.catalog p) m in
    (
      ap models_at (others-lookup src p.instance_id ps m' ne)
          ∙ put_models-at (src.disabled p.instance_id) p.instance_id (src.catalog p) m n,
      get_enabled-served src ps m' u (fresh-put_models src p ps m ne h),
    )

pub keep-IsUnique :
    (f : ModelProvider → Bool) (ps : List ModelProvider) → IsUnique ps → IsUnique (keep f ps)
keep-IsUnique f [] u = tt
keep-IsUnique f (p ∷ ps) (ne, u) =
    if_cases IsUnique (f p) (p ∷ keep f ps) (keep f ps)
      (λ _.
        (keep-All (λ q. text_eq p.instance_id q.instance_id ≡ false) f ps ne, keep-IsUnique f ps u))
      (λ _. keep-IsUnique f ps u)

pub nothing-All :
    (ps : List ModelProvider) → All (λ p. lookup {V = List Model} p.instance_id [] ≡ none) ps
unfolding lookup
nothing-All [] = tt
nothing-All (p ∷ ps) = (refl, nothing-All ps)

All-map :
    (P Q : ModelProvider → Type 0) (ps : List ModelProvider)
    → ((p : ModelProvider) → P p → Q p)
    → All P ps
    → All Q ps
All-map P Q [] f h = tt
All-map P Q (p ∷ ps) f (x, h) = (f p x, All-map P Q ps f h)

-- The candidates among providers of the kind, before they are sorted.
candidates_can_serve :
    (src : Sources) (requested normalized : Text) (evaluation : Bool) (modes : List Text)
    (ps : List ModelProvider)
    → IsUnique ps
    → find_candidates requested normalized modes
        (get_enabled_models_by_provider src.catalog src.disabled
          (keep (λ p. bool_eq p.native evaluation) ps)
          [])
        (keep (λ p. bool_eq p.native evaluation) ps)
      ≡ keep (can_serve src requested normalized evaluation modes) ps
candidates_can_serve src requested normalized evaluation modes ps u =
    let qs = keep (λ p. bool_eq p.native evaluation) ps in
    let m = get_enabled_models_by_provider src.catalog src.disabled qs [] in
    find_candidates-keep requested normalized modes m qs
    ∙ keep-cong _ (λ p. any_named requested normalized (served src p) && not (lacks_mode p modes))
        qs
        (All-map (λ p. models_at (lookup p.instance_id m) ≡ served src p) _ qs
          (λ p e.
            ap (is_candidate requested normalized modes p) e
            ∙ is_candidate-any_named requested normalized modes p (served src p))
          (get_enabled-served src qs [] (keep-IsUnique _ ps u) (nothing-All qs)))
    ∙ keep-keep _ (λ p. bool_eq p.native evaluation) ps

-- The candidates of a route are those that can serve the model, in order.
abbrev pub HasCandidates : Sources → Text → Text → Bool → Model → ResolvedModelRoute → Type 0
HasCandidates src requested normalized evaluation model r =
    Perm r.candidate_providers
      (keep (can_serve src requested normalized evaluation (model_api_modes model)) src.active)
    × IsOrdered src.rows r.candidate_providers

some_injective : (a b : Model) → some a ≡ some b → a ≡ b
some_injective a b h = ap (λ o. elim o [ none ↦ a | some x ↦ x ]) h

abbrev value_or : ResolvedModelRoute → Result ResolveError ResolvedModelRoute → ResolvedModelRoute
value_or a (ok b) = b
value_or a (err e) = a

ok_injective :
    (a b : ResolvedModelRoute)
    → ◌≡◌ {A = Result ResolveError ResolvedModelRoute} (ok a) (ok b)
    → a ≡ b
ok_injective a b h = ap (value_or a) h

route_to-HasCandidates :
    (src : Sources) (requested normalized : Text) (evaluation : Bool) (qs : List ModelProvider)
    (available : List Model) (found : Option Model) (model : Model)
    → IsUnique src.active
    → qs ≡ keep (λ p. bool_eq p.native evaluation) src.active
    → (route_to src requested normalized qs
        (get_enabled_models_by_provider src.catalog src.disabled qs [])
        available
        found).selected_model
      ≡ some model
    → HasCandidates src requested normalized evaluation model (
        route_to src requested normalized qs
          (get_enabled_models_by_provider src.catalog src.disabled qs [])
          available
          found)
unfolding route_to
route_to-HasCandidates src requested normalized evaluation qs available none model u e h = cc
route_to-HasCandidates src requested normalized evaluation qs available (some found) model u e h =
    subst
      (λ x. HasCandidates src requested normalized evaluation x (
        route_to src requested normalized qs
          (get_enabled_models_by_provider src.catalog src.disabled qs []) available (some found)))
      (some_injective found model h)
      (
        subst (λ l. Perm (sort_providers_by_priority src.rows (found_candidates qs)) l)
            (ap found_candidates e
              ∙ candidates_can_serve src requested normalized evaluation (model_api_modes found)
                  src.active u)
            (sort_providers_by_priority-perm src.rows (found_candidates qs)),
        sort_providers_by_priority-IsOrdered src.rows (found_candidates qs),
      )
  where
    found_candidates : List ModelProvider → List ModelProvider
    found_candidates l =
        find_candidates requested normalized (model_api_modes found)
          (get_enabled_models_by_provider src.catalog src.disabled l []) l

resolve_kind-HasCandidates :
    (src : Sources) (requested normalized : Text) (evaluation : Bool) (qs : List ModelProvider)
    (r : ResolvedModelRoute) (model : Model)
    → IsUnique src.active
    → qs ≡ keep (λ p. bool_eq p.native evaluation) src.active
    → resolve_kind src requested normalized [] qs ≡ ok r
    → r.selected_model ≡ some model
    → HasCandidates src requested normalized evaluation model r
unfolding resolve_kind text_eq select_route
resolve_kind-HasCandidates src requested normalized evaluation [] r model u e h k =
    elim (Bool-cases (is_nil src.active)) [ inl b ↦ cc | inr b ↦ cc ]
resolve_kind-HasCandidates src requested normalized evaluation (q ∷ qs) r model u e h k =
    let m = get_enabled_models_by_provider src.catalog src.disabled (q ∷ qs) [] in
    let available = collect_models src.order m in
    subst
      (λ x.
        x.selected_model ≡ some model → HasCandidates src requested normalized evaluation model x)
      (ok_injective (select_route src requested normalized (q ∷ qs) m) r h)
      (route_to-HasCandidates src requested normalized evaluation (q ∷ qs) available
        (find_model requested normalized available) model u e)
      k

resolve_of_kind-HasCandidates :
    (src : Sources) (requested normalized : Text) (evaluation : Bool)
    (kind : Option (List ModelProvider)) (r : ResolvedModelRoute) (model : Model)
    → IsUnique src.active
    → of_kind evaluation [] src.active ≡ kind
    → resolve_of_kind src requested normalized [] kind ≡ ok r
    → r.selected_model ≡ some model
    → HasCandidates src requested normalized evaluation model r
unfolding resolve_of_kind
resolve_of_kind-HasCandidates src requested normalized evaluation none r model u e h k = cc
resolve_of_kind-HasCandidates src requested normalized evaluation (some qs) r model u e h k =
    resolve_kind-HasCandidates src requested normalized evaluation qs r model u
      (of_kind-keep evaluation [] src.active qs e) h k

-- The candidates by the tests of the code; Serving.antt writes them out.
pub resolved-HasCandidates :
    (src : Sources) (requested normalized : Text) (evaluation : Bool) (r : ResolvedModelRoute)
    (model : Model)
    → IsUnique src.active
    → resolve_providers_for_operation src requested normalized [] evaluation ≡ ok r
    → r.selected_model ≡ some model
    → HasCandidates src requested normalized evaluation model r
unfolding resolve_providers_for_operation
resolved-HasCandidates src requested normalized evaluation r model u h k =
    resolve_of_kind-HasCandidates src requested normalized evaluation
      (of_kind evaluation [] src.active) r model u refl h k
