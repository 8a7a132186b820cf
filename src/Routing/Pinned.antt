-- ===== src/Routing/Pinned.antt =====
-- What `resolveProvidersForOperation` gives for a provider that is asked for.
use mathlib.Core.List.{Memᴰ}
use omnillm.Prelude.{
  ◌≡◌, refl, sym, ap, subst, ◌∙◌, Bool, true, false, Option, none, some, List, [], ◌∷◌, Text, arith,
  text_eq, text_eq_iff, All, Bool-cases, Option-cases, inl, inr, if◌then◌else◌,
}
use omnillm.Dispatch.Defs.{ResolveError, unsupported, Result, ok, err}
use omnillm.Routing.Candidates.{IsUnique}
use omnillm.Routing.Providers.{
  Model, ModelProvider, ResolvedModelRoute, Sources, bool_eq, of_kind, find_provider, no_route,
  pinned_route, resolve_kind, resolve_of_kind, resolve_providers_for_operation,
}

-- The answer, by the active provider of the instance ID.
abbrev pinned_result : Text → Bool → Option ModelProvider → Result ResolveError ResolvedModelRoute
pinned_result requested evaluation none = ok no_route
pinned_result requested evaluation (some p) =
    if bool_eq p.native evaluation
    then ok (pinned_route requested (some p))
    else if evaluation
    then ok no_route
    else err unsupported

-- Among providers of other IDs nothing is refused and nothing found.
others-of_kind :
    (evaluation : Bool) (id : Text) (ps : List ModelProvider)
    → All (λ q. text_eq q.instance_id id ≡ false) ps
    → (qs : List ModelProvider) × (of_kind evaluation id ps ≡ some qs)
      × (find_provider id qs ≡ none)
unfolding of_kind find_provider
others-of_kind evaluation id [] h = ([], refl, refl)
others-of_kind evaluation id (p ∷ ps) (ne, h) =
    let (qs, e, f) = others-of_kind evaluation id ps h in
    elim (Bool-cases (bool_eq p.native evaluation)) [
      | inl k ↦ (p ∷ qs, rw (k, e) refl, rw (ne, f) refl)
      | inr k ↦ (qs, rw (k, ne, e) refl, f)
    ]

-- The answer is that of the providers behind one of another ID.
skip-of_kind :
    (src : Sources) (requested normalized id : Text) (evaluation : Bool) (p : ModelProvider)
    (ps : List ModelProvider)
    → text_eq id [] ≡ false
    → text_eq p.instance_id id ≡ false
    → resolve_of_kind src requested normalized id (of_kind evaluation id (p ∷ ps))
      ≡ resolve_of_kind src requested normalized id (of_kind evaluation id ps)
unfolding resolve_of_kind of_kind resolve_kind find_provider
skip-of_kind src requested normalized id evaluation p ps i ne =
    elim (Bool-cases (bool_eq p.native evaluation)) [
      | inl k ↦ elim (Option-cases (of_kind evaluation id ps)) [
        | inl e ↦ rw (k, e) refl
        | inr (qs, e) ↦ rw (k, e, i, ne) refl
      ]
      | inr k ↦ rw (k, ne) refl
    ]

others-All :
    (p : ModelProvider) (id : Text) (ps : List ModelProvider)
    → p.instance_id ≡ id
    → All (λ q. text_eq p.instance_id q.instance_id ≡ false) ps
    → All (λ q. text_eq q.instance_id id ≡ false) ps
others-All p id [] e h = tt
others-All p id (q ∷ ps) e (ne, h) = (
  ground (arith, text_eq_iff p.instance_id q.instance_id, text_eq_iff q.instance_id id),
  others-All p id ps e h,
)

-- The answer at the provider of the ID.
found-of_kind :
    (src : Sources) (requested normalized id : Text) (evaluation : Bool) (p : ModelProvider)
    (ps : List ModelProvider)
    → text_eq id [] ≡ false
    → text_eq p.instance_id id ≡ true
    → All (λ q. text_eq q.instance_id id ≡ false) ps
    → resolve_of_kind src requested normalized id (of_kind evaluation id (p ∷ ps))
      ≡ pinned_result requested evaluation (some p)
unfolding resolve_of_kind of_kind resolve_kind find_provider
found-of_kind src requested normalized id evaluation p ps i y h =
    let (qs, e, f) = others-of_kind evaluation id ps h in
    elim (Bool-cases (bool_eq p.native evaluation)) [
      | inl k ↦ rw (k, e, i, y) refl
      | inr k ↦ elim (Bool-cases evaluation) [
        | inl t ↦ rw (k, t, y) (rw (e, i, f) refl)
        | inr t ↦ rw (k, t, y) refl
      ]
    ]

resolve_of_kind-pinned :
    (src : Sources) (requested normalized id : Text) (evaluation : Bool) (ps : List ModelProvider)
    → text_eq id [] ≡ false
    → IsUnique ps
    → resolve_of_kind src requested normalized id (of_kind evaluation id ps)
      ≡ pinned_result requested evaluation (find_provider id ps)
unfolding resolve_of_kind of_kind resolve_kind find_provider
resolve_of_kind-pinned src requested normalized id evaluation [] i u = rw i refl
resolve_of_kind-pinned src requested normalized id evaluation (p ∷ ps) i (ne, u) =
    elim (Bool-cases (text_eq p.instance_id id)) [
      | inr n ↦
          skip-of_kind src requested normalized id evaluation p ps i n
          ∙ resolve_of_kind-pinned src requested normalized id evaluation ps i u
          ∙ ap (pinned_result requested evaluation) (rw n refl)
      | inl y ↦
          found-of_kind src requested normalized id evaluation p ps i y
            (others-All p id ps ((text_eq_iff p.instance_id id).0 y) ne)
          ∙ ap (pinned_result requested evaluation) {x = some p} (rw y refl)
    ]

-- The answer by the code's own route; `resolve_providers-pinned` writes it out.
resolved_pinned :
    (src : Sources) (requested normalized id : Text) (evaluation : Bool)
    → text_eq id [] ≡ false
    → IsUnique src.active
    → resolve_providers_for_operation src requested normalized id evaluation
      ≡ pinned_result requested evaluation (find_provider id src.active)
unfolding resolve_providers_for_operation
resolved_pinned src requested normalized id evaluation i u =
    resolve_of_kind-pinned src requested normalized id evaluation src.active i u

-- The active provider of an instance ID, if there is one.
abbrev pub IsInstance : Text → List ModelProvider → Option ModelProvider → Type 0
IsInstance id ps none = All (λ (q : ModelProvider). text_eq q.instance_id id ≡ false) ps
IsInstance id ps (some p) = Memᴰ p ps × (p.instance_id ≡ id)

-- The answer has one candidate, and a model of the requested name that names its instance.
abbrev pub IsOnly : Text → ModelProvider → Result ResolveError ResolvedModelRoute → Type 0
IsOnly requested p answer =
    (r : ResolvedModelRoute) × (m : Model) × (answer ≡ ok r)
    × (r.candidate_providers ≡ p ∷ [])
    × (r.selected_model ≡ some m)
    × (m.id ≡ requested)
    × (m.name ≡ requested)
    × (m.provider ≡ p.instance_id)
    × (m.capabilities ≡ none)
    × (r.available_models ≡ [])

-- The answer has no candidate and no model.
abbrev pub IsVoid : Result ResolveError ResolvedModelRoute → Type 0
IsVoid answer =
    (r : ResolvedModelRoute) × (answer ≡ ok r)
    × (r.candidate_providers ≡ [])
    × (r.selected_model ≡ none)
    × (r.available_models ≡ [])

-- The answer about an active provider, by whether it is a native evaluator and whether the
-- operation is an evaluation.
abbrev pub AnswersFor :
    Text → ModelProvider → Bool → Bool → Result ResolveError ResolvedModelRoute → Type 0
AnswersFor requested p true true answer = IsOnly requested p answer
AnswersFor requested p false false answer = IsOnly requested p answer
AnswersFor requested p false true answer = IsVoid answer
AnswersFor requested p true false answer = answer ≡ err unsupported

abbrev pub Answers :
    Text → Bool → Option ModelProvider → Result ResolveError ResolvedModelRoute → Type 0
Answers requested evaluation none answer = IsVoid answer
Answers requested evaluation (some p) answer = AnswersFor requested p p.native evaluation answer

find_provider-IsInstance :
    (id : Text) (ps : List ModelProvider) → IsInstance id ps (find_provider id ps)
unfolding find_provider
find_provider-IsInstance id [] = tt
find_provider-IsInstance id (p ∷ ps) = elim (Bool-cases (text_eq p.instance_id id)) [
  | inl e ↦ rw e (Memᴰ.head refl, (text_eq_iff p.instance_id id).0 e)
  | inr e ↦ rw e (behind (find_provider id ps) e (find_provider-IsInstance id ps))
]
  where
    behind :
        (o : Option ModelProvider)
        → text_eq p.instance_id id ≡ false
        → IsInstance id ps o
        → IsInstance id (p ∷ ps) o
    behind none e h = (e, h)
    behind (some q) e (m, h) = (Memᴰ.tail m, h)

route-AnswersFor :
    (requested : Text) (p : ModelProvider) (native evaluation : Bool)
    → AnswersFor requested p native evaluation (
        if bool_eq native evaluation
        then ok (pinned_route requested (some p))
        else if evaluation
        then ok no_route
        else err unsupported)
unfolding bool_eq
route-AnswersFor requested p true true = (_, _, refl, refl, refl, refl, refl, refl, refl, refl)
route-AnswersFor requested p false false = (_, _, refl, refl, refl, refl, refl, refl, refl, refl)
route-AnswersFor requested p false true = (no_route, refl, refl, refl, refl)
route-AnswersFor requested p true false = refl

pinned_result-Answers :
    (requested : Text) (evaluation : Bool) (o : Option ModelProvider)
    → Answers requested evaluation o (pinned_result requested evaluation o)
pinned_result-Answers requested evaluation none = (no_route, refl, refl, refl, refl)
pinned_result-Answers requested evaluation (some p) =
    route-AnswersFor requested p p.native evaluation

-- When a provider is asked for, among active providers of different instance IDs, the answer does
-- not depend on the catalogs: a provider of the kind of the operation is the only candidate, with a
-- model of the requested name and the instance; an inactive one, or for an evaluation one of the
-- other kind, gives a route with neither candidate nor model; a native evaluator is refused as
-- unsupported by any other operation.
pub resolve_providers-pinned :
    (src : Sources) (requested normalized id : Text) (evaluation : Bool)
    → text_eq id [] ≡ false
    → IsUnique src.active
    → (found : Option ModelProvider) × IsInstance id src.active found
      × Answers requested evaluation found
          (resolve_providers_for_operation src requested normalized id evaluation)
resolve_providers-pinned src requested normalized id evaluation i u = (
  find_provider id src.active,
  find_provider-IsInstance id src.active,
  subst (Answers requested evaluation (find_provider id src.active))
      (sym (resolved_pinned src requested normalized id evaluation i u))
      (pinned_result-Answers requested evaluation (find_provider id src.active)),
)
