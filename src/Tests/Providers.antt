-- ===== src/Tests/Providers.antt =====
-- The providers of a model, at three active providers, one of which is a native evaluator.
use omnillm.Prelude.{
  Option, ◌≡◌, refl, true, false, none, some, [], ◌∷◌, Text, codes, text_eq, lookup, insert, member,
  if◌then◌else◌,
}
use mathlib.Core.List.{Memᴰ}
use omnillm.Dispatch.Defs.{ok}
use omnillm.Routing.References.{text_le}
use omnillm.Routing.Providers.{
  Model, ModelProvider, ResolvedModelRoute, Sources, model_api_modes, enabled_models,
  get_enabled_models_by_provider, collect_models, is_named, find_model, lacks_mode, is_candidate,
  find_candidates, priority_map, priority_of, int_lt, int_eq, provider_less, insert_provider,
  sort_providers_by_priority, bool_eq, of_kind, route_to, select_route, resolve_kind,
  resolve_of_kind, resolve_providers_for_operation,
}
use omnillm.Routing.Candidates.{served, any_named}
use omnillm.Routing.Serving
use omnillm.Routing.Serving.{HasServing}
use omnillm.Routing.Selection.{Selects}
use omnillm.Routing.Selection
use omnillm.Routing.Pinned.{IsInstance, Answers}
use omnillm.Routing.Pinned

abbrev gpt : Text → Model
gpt provider = record {
  id = codes "gpt";
  name = codes "gpt";
  provider = provider;
  capabilities = none;
}

abbrev codex : ModelProvider
codex = record { id = codes "codex"; instance_id = codes "b"; native = false }

abbrev copilot : ModelProvider
copilot = record { id = codes "github-copilot"; instance_id = codes "a"; native = false }

abbrev system_one : ModelProvider
system_one = record { id = codes "systemone"; instance_id = codes "s"; native = true }

abbrev sources : Sources
sources = record {
  active = codex ∷ system_one ∷ copilot ∷ [];
  catalog = λ p. if p.native then none else some (gpt p.instance_id ∷ []);
  disabled = λ instance_id model. false;
  order = codes "a" ∷ codes "b" ∷ [];
  rows = [];
}

abbrev route : ResolvedModelRoute
route = record {
  selected_model = some (gpt (codes "a"));
  candidate_providers = copilot ∷ codex ∷ [];
  available_models = gpt (codes "a") ∷ gpt (codes "b") ∷ [];
}

route_run : resolve_providers_for_operation sources (codes "gpt") (codes "gpt") [] false ≡ ok route
unfolding resolve_providers_for_operation resolve_of_kind resolve_kind select_route route_to of_kind
    bool_eq find_model is_named collect_models get_enabled_models_by_provider enabled_models lookup
    insert text_eq find_candidates is_candidate lacks_mode model_api_modes
    sort_providers_by_priority insert_provider provider_less priority_of priority_map int_eq int_lt
    text_le
route_run = refl

resolve_providers-HasCandidates_example :
    HasServing sources (codes "gpt") (codes "gpt") false (gpt (codes "a")) route
unfolding text_eq
resolve_providers-HasCandidates_example =
    Serving.resolve_providers-HasCandidates sources (codes "gpt") (codes "gpt") false route
      (gpt (codes "a")) ((refl, (refl, tt)), ((refl, tt), (tt, tt))) route_run refl

resolve_providers-Selects_example :
    Selects
      (codes "gpt")
      (codes "gpt")
      (resolve_providers_for_operation sources (codes "gpt") (codes "gpt") [] false)
unfolding text_eq member bool_eq any_named is_named served enabled_models
resolve_providers-Selects_example =
    Selection.resolve_providers-Selects sources (codes "gpt") (codes "gpt") false codex
      ((refl, (refl, tt)), ((refl, tt), (tt, tt))) (refl, (refl, (refl, tt))) refl (Memᴰ.head refl)
      refl refl

resolve_providers-pinned_example :
    (found : Option ModelProvider) × IsInstance (codes "s") sources.active found
    × Answers
        (codes "gpt")
        false
        found
        (resolve_providers_for_operation sources (codes "gpt") (codes "gpt") (codes "s") false)
unfolding text_eq
resolve_providers-pinned_example =
    Pinned.resolve_providers-pinned sources (codes "gpt") (codes "gpt") (codes "s") false refl
      ((refl, (refl, tt)), ((refl, tt), (tt, tt)))
