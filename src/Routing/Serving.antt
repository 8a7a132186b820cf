-- ===== src/Routing/Serving.antt =====
-- Which providers may serve a model, written out, and the tests that modelrouting.go makes for it.
use omnillm.Prelude.{
  ap, ◌∙◌, lookup, is_nil, ◌≡◌, refl, Bool, true, false, not, ◌&&◌, ◌||◌, Option, none, some, List,
  [], ◌∷◌, Perm, Text, arith, codes, text_eq, member, keep, keep-cong, All, subst,
}
use omnillm.Dispatch.Defs.{ok}
use omnillm.Routing.Providers.{
  Capability, strings, values, other_capability, text_items, modes_of, Model, ModelProvider,
  ResolvedModelRoute, Sources, model_api_modes, enabled_models, is_named, lacks_mode, bool_eq,
  resolve_providers_for_operation,
}
use omnillm.ToolArguments.Schemas.{
  null, boolean, number, string, array, object, Items, no_items, item,
}
use omnillm.Routing.Order.{IsSorted, IsOrdered-IsSorted}
use omnillm.Routing.Candidates.{
  IsUnique, served, any_named, can_serve, HasCandidates, resolved-HasCandidates,
}

-- Some model of the catalog is not disabled and has one of the two names as its ID.
abbrev pub offers : (Text → Bool) → Text → Text → List Model → Bool
offers disabled requested normalized [] = false
offers disabled requested normalized (m ∷ ms) =
    (not (disabled m.id) && (text_eq m.id requested || text_eq m.id normalized))
    || offers disabled requested normalized ms

-- The catalog of the provider can be had and offers the model.
abbrev pub offered : Sources → Text → Text → ModelProvider → Bool
offered src requested normalized p = elim (src.catalog p) [
  | none ↦ false
  | some models ↦ offers (src.disabled p.instance_id) requested normalized models
]

-- Only Alibaba needs a mode: if the model has any, that of the OpenAI protocol.
abbrev pub has_mode : List Text → ModelProvider → Bool
has_mode modes p =
    not (text_eq p.id (codes "alibaba"))
    || (is_nil modes || member (codes "openai-compatible") modes)

-- An evaluation is for native evaluators, everything else for the other providers.
abbrev pub is_for : Bool → ModelProvider → Bool
is_for true p = p.native
is_for false p = not p.native

abbrev pub serves : Sources → Text → Text → Bool → List Text → ModelProvider → Bool
serves src requested normalized evaluation modes p =
    is_for evaluation p && (offered src requested normalized p && has_mode modes p)

-- The strings of a list of values that are not empty.
abbrev pub texts_of : Items → List Text
texts_of no_items = []
texts_of (item (string []) items) = texts_of items
texts_of (item (string (c ∷ s)) items) = (c ∷ s) ∷ texts_of items
texts_of (item null items) = texts_of items
texts_of (item (boolean b) items) = texts_of items
texts_of (item (number n) items) = texts_of items
texts_of (item (array a) items) = texts_of items
texts_of (item (object o) items) = texts_of items

abbrev pub modes_in : Option Capability → List Text
modes_in none = []
modes_in (some (strings texts)) = texts
modes_in (some (values items)) = texts_of items
modes_in (some other_capability) = []

-- The modes that the capabilities of a model name under "api_modes".
abbrev pub required_modes : Option (List (Text × Capability)) → List Text
required_modes none = []
required_modes (some capabilities) = modes_in (lookup (codes "api_modes") capabilities)

text_items-texts_of : (items : Items) → text_items items ≡ texts_of items
unfolding text_items text_eq
text_items-texts_of no_items = refl
text_items-texts_of (item (string []) items) = text_items-texts_of items
text_items-texts_of (item (string (c ∷ s)) items) = ap (◌∷◌ (c ∷ s)) (text_items-texts_of items)
text_items-texts_of (item null items) = text_items-texts_of items
text_items-texts_of (item (boolean b) items) = text_items-texts_of items
text_items-texts_of (item (number n) items) = text_items-texts_of items
text_items-texts_of (item (array a) items) = text_items-texts_of items
text_items-texts_of (item (object o) items) = text_items-texts_of items

modes_of-modes_in : (o : Option Capability) → modes_of o ≡ modes_in o
modes_of-modes_in none = refl
modes_of-modes_in (some (strings texts)) = refl
modes_of-modes_in (some (values items)) = text_items-texts_of items
modes_of-modes_in (some other_capability) = refl

model_api_modes-required : (m : Model) → model_api_modes m ≡ required_modes m.capabilities
unfolding model_api_modes
model_api_modes-required m = by_capabilities m.capabilities
  where
    by_capabilities :
        (o : Option (List (Text × Capability)))
        → (elim o [
          | none ↦ []
          | some capabilities ↦ modes_of (lookup (codes "api_modes") capabilities)
        ])
          ≡ required_modes o
    by_capabilities none = refl
    by_capabilities (some capabilities) =
        modes_of-modes_in (lookup (codes "api_modes") capabilities)

offers-any_named :
    (disabled : Text → Bool) (requested normalized : Text) (ms : List Model)
    → any_named requested normalized (enabled_models disabled ms)
      ≡ offers disabled requested normalized ms
unfolding any_named enabled_models is_named
offers-any_named disabled requested normalized [] = refl
offers-any_named disabled requested normalized (m ∷ ms) =
    ground (arith, offers-any_named disabled requested normalized ms)

offered-any_named :
    (src : Sources) (requested normalized : Text) (p : ModelProvider)
    → any_named requested normalized (served src p) ≡ offered src requested normalized p
unfolding served any_named
offered-any_named src requested normalized p = by_catalog (src.catalog p)
  where
    by_catalog :
        (o : Option (List Model))
        → any_named requested normalized
            (elim o [ none ↦ [] | some ms ↦ enabled_models (src.disabled p.instance_id) ms ])
          ≡ (elim o [
            | none ↦ false
            | some ms ↦ offers (src.disabled p.instance_id) requested normalized ms
          ])
    by_catalog none = refl
    by_catalog (some ms) = offers-any_named (src.disabled p.instance_id) requested normalized ms

has_mode-lacks_mode :
    (modes : List Text) (p : ModelProvider) → not (lacks_mode p modes) ≡ has_mode modes p
unfolding lacks_mode
has_mode-lacks_mode modes p = ground arith

is_for-bool_eq :
    (evaluation : Bool) (p : ModelProvider) → bool_eq p.native evaluation ≡ is_for evaluation p
unfolding bool_eq
is_for-bool_eq true p = ground arith
is_for-bool_eq false p = ground arith

pub serves-can_serve :
    (src : Sources) (requested normalized : Text) (evaluation : Bool) (modes : List Text)
    (p : ModelProvider)
    → can_serve src requested normalized evaluation modes p
      ≡ serves src requested normalized evaluation modes p
serves-can_serve src requested normalized evaluation modes p =
    rw
      (
        is_for-bool_eq evaluation p,
        offered-any_named src requested normalized p,
        has_mode-lacks_mode modes p,
      )
      refl

-- The candidates of a route are those that serve the model, in order.
abbrev pub HasServing : Sources → Text → Text → Bool → Model → ResolvedModelRoute → Type 0
HasServing src requested normalized evaluation model r =
    Perm r.candidate_providers (
      keep (serves src requested normalized evaluation (required_modes model.capabilities))
        src.active)
    × IsSorted src.rows r.candidate_providers

every :
    (P : ModelProvider → Type 0)
    → ((p : ModelProvider) → P p)
    → (ps : List ModelProvider) → All P ps
every P f [] = tt
every P f (p ∷ ps) = (f p, every P f ps)

HasCandidates-serving :
    (src : Sources) (requested normalized : Text) (evaluation : Bool) (model : Model)
    (r : ResolvedModelRoute)
    → HasCandidates src requested normalized evaluation model r
    → HasServing src requested normalized evaluation model r
HasCandidates-serving src requested normalized evaluation model r (perm, ordered) = (
  subst (λ l. Perm r.candidate_providers l)
      (keep-cong _ _ src.active (
          every _ (serves-can_serve src requested normalized evaluation (model_api_modes model))
            src.active)
        ∙ ap (λ modes. keep (serves src requested normalized evaluation modes) src.active)
            (model_api_modes-required model))
      perm,
  IsOrdered-IsSorted src.rows r.candidate_providers ordered,
)

-- With active providers of different instance IDs, when no provider is asked for and a model is
-- selected, the candidates are exactly the active providers that are of the kind of the operation,
-- whose catalog has a model that is not disabled under the requested or the normalized name, and
-- which, for Alibaba, have the OpenAI mode if the model names any modes, each once. They stand by the number of
-- the priority in their last row, 0 without a row, the smaller first, and at equal priority by
-- instance ID.
pub resolve_providers-HasCandidates :
    (src : Sources) (requested normalized : Text) (evaluation : Bool) (r : ResolvedModelRoute)
    (model : Model)
    → IsUnique src.active
    → resolve_providers_for_operation src requested normalized [] evaluation ≡ ok r
    → r.selected_model ≡ some model
    → HasServing src requested normalized evaluation model r
resolve_providers-HasCandidates src requested normalized evaluation r model u h k =
    HasCandidates-serving src requested normalized evaluation model r
      (resolved-HasCandidates src requested normalized evaluation r model u h k)
