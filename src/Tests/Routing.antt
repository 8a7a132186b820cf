-- ===== src/Tests/Routing.antt =====
-- Runs of model resolution, and its theorems at a small catalog.
use Prim.Native.String.{String}
use omnillm.Prelude.{
  false, none, ℕ, ◌≡◌, refl, true, some, List, [], ◌∷◌, ◌++◌, arith, codes, text_eq, to_lower,
  trim_space, has_prefix, lookup, insert, member, pos,
}
use omnillm.Routing.Coverage
use omnillm.Routing.Coverage.{HasFirst}
use omnillm.Routing.Matches
use omnillm.Routing.Matches.{matching, has_instance}
use omnillm.Routing.NameLaws
use omnillm.Routing.Names.{
  normalize_model_name, parse_provider_prefix, canonical_name, find_alias, find_prefix,
}
use omnillm.Routing.References.{
  ProviderInstance, empty_index, ambiguous, resolve_provider_reference, load_inst,
}
use omnillm.Routing.Resolution.{Catalog, VirtualModel, resolve_requested_models}
use omnillm.Routing.VirtualModelCache
use omnillm.Routing.VirtualModelCache.{
  VirtualModelCache, upstreams_at, ensure_vm_loaded, upstreams_of, last_named,
}
use omnillm.VirtualModels.Defs.{Upstream, LbStrategy}

abbrev row : String → String → String → ProviderInstance
row id alias name = record {
  instance_id = codes id;
  provider_id = codes "openai-compatible";
  name = codes name;
  subtitle = codes alias;
  priority = pos 0;
  activated = true;
}

abbrev rows : List ProviderInstance
rows = row "oc-2" "Work" "My Server" ∷ row "oc-1" "" "my server" ∷ []

abbrev upstream : String → Upstream
upstream model = record {
  id = pos 1;
  virtual_model_id = codes "fast";
  provider_id = [];
  model_id = codes model;
  weight = pos 2;
  priority = pos 0;
  created_at = pos 0;
  updated_at = pos 0;
}

abbrev fast : VirtualModel
fast = record {
  virtual_model_id = codes "fast";
  name = codes "Fast";
  description = [];
  api_shape = codes "openai";
  lb_strategy = LbStrategy.priority;
  enabled = true;
}

abbrev catalog : Catalog
catalog = record {
  vm_by_name = (codes "fast", fast) ∷ [];
  vm_upstreams = (codes "fast", upstream "work/gpt-4" ∷ upstream "haiku" ∷ []) ∷ [];
  instances = load_inst (some rows) empty_index;
}

abbrev zero_draw : ℕ → ℕ
zero_draw n = 0

sonnet_run : normalize_model_name (codes " Claude-Sonnet-4-5-20250929") ≡ codes "claude-sonnet-4.5"
unfolding normalize_model_name canonical_name find_alias find_prefix to_lower trim_space has_prefix
    text_eq member
sonnet_run = refl

ambiguous_run :
    (resolve_provider_reference (some rows) empty_index (codes "MY SERVER")).0
    ≡ ambiguous (codes "MY SERVER") (codes "oc-1" ∷ codes "oc-2" ∷ [])
unfolding resolve_provider_reference to_lower trim_space text_eq lookup insert empty_index
ambiguous_run = refl

normalize_model_name_idem_example :
    normalize_model_name (normalize_model_name (codes " OPUS"))
    ≡ normalize_model_name (codes " OPUS")
normalize_model_name_idem_example = NameLaws.normalize_model_name_idem (codes " OPUS")

parse_provider_prefix_lem_example :
    (parse_provider_prefix (codes "oc" ++ b'/' ∷ codes "a/b") ≡ (codes "oc", codes "a/b"))
    × (parse_provider_prefix (codes "oc") ≡ ([], codes "oc"))
parse_provider_prefix_lem_example =
    NameLaws.parse_provider_prefix_lem (codes "oc") (codes "a/b") (ground arith)

resolve_requested_models-HasFirst_example :
    HasFirst (resolve_requested_models catalog zero_draw (codes "oc-1/gpt-4") []).0
resolve_requested_models-HasFirst_example =
    Coverage.resolve_requested_models-HasFirst catalog zero_draw (codes "oc-1/gpt-4") []

abbrev cold : VirtualModelCache
cold = record { vm_by_name = []; vm_upstreams = []; vm_loaded = false }

ensure_vm_loaded_lem_example :
    (upstreams_at
        (codes "fast")
        (ensure_vm_loaded (some (fast ∷ [])) (some (upstream "haiku" ∷ [])) cold).vm_upstreams
      ≡ upstreams_of (codes "fast") (upstream "haiku" ∷ []))
    × (lookup
          (to_lower (codes "FAST"))
          (ensure_vm_loaded (some (fast ∷ [])) (some (upstream "haiku" ∷ [])) cold).vm_by_name
        ≡ last_named (to_lower (codes "FAST")) (fast ∷ []) none)
    × (ensure_vm_loaded (some (fast ∷ [])) none cold ≡ cold)
    × (ensure_vm_loaded none (some (upstream "haiku" ∷ [])) cold ≡ cold)
ensure_vm_loaded_lem_example =
    VirtualModelCache.ensure_vm_loaded_lem (fast ∷ []) (upstream "haiku" ∷ []) cold (codes "fast")
      (codes "FAST") refl
