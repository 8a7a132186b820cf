-- ===== src/Routing/Selection.antt =====
-- When `resolveProvidersForOperation` selects a model, and what it gives for a provider that is asked
-- for.
use mathlib.Core.List.{Memᴰ}
use omnillm.Prelude.{
  ◌≡◌, refl, sym, ap, subst, ◌∙◌, Bool, true, false, ◌||◌, some, List, [], ◌∷◌, ◌++◌, Text, arith,
  text_eq, text_eq_iff, lookup, All, keep, Bool-cases, inl, inr, if_cases, member,
}
use omnillm.Dispatch.Defs.{ResolveError, Result, ok}
use omnillm.Routing.Candidates.{
  IsUnique, served, any_named, get_enabled-served, keep-IsUnique, nothing-All,
}
use omnillm.Routing.Providers.{
  Model, ModelProvider, ResolvedModelRoute, Sources, get_enabled_models_by_provider, models_at,
  collect_models, is_named, find_model, bool_eq, of_kind, select_route, route_to, resolve_kind,
  resolve_of_kind, resolve_providers_for_operation,
}

any_named-append :
    (requested normalized : Text) (xs ys : List Model)
    → any_named requested normalized (xs ++ ys)
      ≡ (any_named requested normalized xs || any_named requested normalized ys)
unfolding any_named
any_named-append requested normalized [] ys = refl
any_named-append requested normalized (m ∷ xs) ys =
    ground (arith, any_named-append requested normalized xs ys)

collect_models-any_named :
    (requested normalized id : Text) (order : List Text) (m : List (Text × List Model))
    → member id order ≡ true
    → any_named requested normalized (models_at (lookup id m)) ≡ true
    → any_named requested normalized (collect_models order m) ≡ true
unfolding collect_models member
collect_models-any_named requested normalized id [] m h k = cc
collect_models-any_named requested normalized id (j ∷ order) m h k =
    any_named-append requested normalized (models_at (lookup j m)) (collect_models order m)
    ∙ (elim (Bool-cases (text_eq j id)) [
      | inl e ↦
          rw
            (subst (λ i. any_named requested normalized (models_at (lookup i m)) ≡ true)
              (sym ((text_eq_iff j id).0 e)) k)
            refl
      | inr e ↦ ground (arith, collect_models-any_named requested normalized id order m)
    ])

find_model-named :
    (requested normalized : Text) (ms : List Model)
    → any_named requested normalized ms ≡ true
    → (model : Model) × (find_model requested normalized ms ≡ some model)
      × (is_named requested normalized model ≡ true)
unfolding find_model any_named
find_model-named requested normalized [] h = cc
find_model-named requested normalized (m ∷ ms) h =
    elim (Bool-cases (is_named requested normalized m)) [
      | inl e ↦ (m, rw e refl, e)
      | inr e ↦
          (let (model, f, n) = find_model-named requested normalized ms (ground arith) in
            (model, rw e f, n))
    ]

of_kind-All :
    (evaluation : Bool) (ps : List ModelProvider)
    → All (λ p. text_eq p.instance_id [] ≡ false) ps
    → of_kind evaluation [] ps ≡ some (keep (λ p. bool_eq p.native evaluation) ps)
unfolding of_kind
of_kind-All evaluation [] h = refl
of_kind-All evaluation (p ∷ ps) (ne, h) = elim (Bool-cases (bool_eq p.native evaluation)) [
  | inl e ↦ rw (e, of_kind-All evaluation ps h) refl
  | inr e ↦ rw (e, ne, of_kind-All evaluation ps h) refl
]

All-Memᴰ :
    (P : ModelProvider → Type 0) (p : ModelProvider) (ps : List ModelProvider)
    → All P ps
    → Memᴰ p ps
    → P p
All-Memᴰ P p [] h m = elim m [ ]
All-Memᴰ P p (q ∷ ps) (x, h) (Memᴰ.head e) = subst P (sym e) x
All-Memᴰ P p (q ∷ ps) (x, h) (Memᴰ.tail m) = All-Memᴰ P p ps h m

true-false : true ≡ false → ⊥
true-false h = cc

Memᴰ-keep :
    (f : ModelProvider → Bool) (p : ModelProvider) (ps : List ModelProvider)
    → f p ≡ true
    → Memᴰ p ps
    → Memᴰ p (keep f ps)
Memᴰ-keep f p [] t m = elim m [ ]
Memᴰ-keep f p (q ∷ ps) t (Memᴰ.head e) =
    if_cases (Memᴰ p) (f q) (q ∷ keep f ps) (keep f ps) (λ _. Memᴰ.head e)
      (λ n. absurd (true-false (sym t ∙ ap f e ∙ n)))
Memᴰ-keep f p (q ∷ ps) t (Memᴰ.tail m) =
    if_cases (Memᴰ p) (f q) (q ∷ keep f ps) (keep f ps) (λ _. Memᴰ.tail (Memᴰ-keep f p ps t m))
      (λ _. Memᴰ-keep f p ps t m)

-- A route with a model of the name that is asked for.
abbrev pub Selects : Text → Text → Result ResolveError ResolvedModelRoute → Type 0
Selects requested normalized result =
    (r : ResolvedModelRoute) × (model : Model) × (result ≡ ok r)
    × (r.selected_model ≡ some model)
    × (is_named requested normalized model ≡ true)

route_to-Selects :
    (src : Sources) (requested normalized : Text) (ps : List ModelProvider)
    (m : List (Text × List Model))
    → any_named requested normalized (collect_models src.order m) ≡ true
    → Selects requested normalized (ok (select_route src requested normalized ps m))
unfolding select_route route_to
route_to-Selects src requested normalized ps m h =
    let (model, f, n) = find_model-named requested normalized (collect_models src.order m) h in
    (select_route src requested normalized ps m, model, refl, rw f refl, n)

resolve_kind-Selects :
    (src : Sources) (requested normalized : Text) (p : ModelProvider) (ps : List ModelProvider)
    → IsUnique ps
    → member p.instance_id src.order ≡ true
    → Memᴰ p ps
    → any_named requested normalized (served src p) ≡ true
    → Selects requested normalized (resolve_kind src requested normalized [] ps)
unfolding resolve_kind text_eq
resolve_kind-Selects src requested normalized p [] u o m h = elim m [ ]
resolve_kind-Selects src requested normalized p (q ∷ ps) u o m h =
    let models = get_enabled_models_by_provider src.catalog src.disabled (q ∷ ps) [] in
    route_to-Selects src requested normalized (q ∷ ps) models (
      collect_models-any_named requested normalized p.instance_id src.order models o (
        ap (any_named requested normalized) (
          All-Memᴰ (λ p. models_at (lookup p.instance_id models) ≡ served src p) p (q ∷ ps)
            (get_enabled-served src (q ∷ ps) [] u (nothing-All (q ∷ ps))) m)
        ∙ h))

-- When no provider is asked for and an active provider of the kind of the operation serves a model of
-- the name that is not disabled, a model of that name is selected, whatever the order in which the
-- catalogs are read; the active providers have different instance IDs that are not empty, and the
-- order goes over that of the provider.
pub resolve_providers-Selects :
    (src : Sources) (requested normalized : Text) (evaluation : Bool) (p : ModelProvider)
    → IsUnique src.active
    → All (λ q. text_eq q.instance_id [] ≡ false) src.active
    → member p.instance_id src.order ≡ true
    → Memᴰ p src.active
    → bool_eq p.native evaluation ≡ true
    → any_named requested normalized (served src p) ≡ true
    → Selects requested normalized
        (resolve_providers_for_operation src requested normalized [] evaluation)
unfolding resolve_providers_for_operation resolve_of_kind
resolve_providers-Selects src requested normalized evaluation p u ne o m k h =
    rw (of_kind-All evaluation src.active ne) (
      resolve_kind-Selects src requested normalized p
        (keep (λ q. bool_eq q.native evaluation) src.active) (keep-IsUnique _ src.active u) o
        (Memᴰ-keep _ p src.active k m) h)
