-- ===== src/Tests/Dispatch.antt =====
-- Runs of the dispatcher, and its theorems at two providers.
use Prim.Native.String.{String}
use omnillm.Prelude.{
  has_prefix, ℕ, suc, ◌≡◌, ◌≢◌, refl, some, none, List, [], ◌∷◌, ◌++◌, All, Perm, Text, Bool, true,
  false, codes, take, drop, get_elem?, member, text_eq, if◌then◌else◌, front_at, map,
}
use omnillm.Dispatch.Defs.{
  empty_extensions, Heap, Request, Adapter, Provider, PreparedCandidate, Attempt, ResolveError,
  Result, ok,
}
use omnillm.Dispatch.Executor.{
  Executor, apply_github_copilot_single_upstream_mode, default_upstream_api, build_candidate,
}
use omnillm.Dispatch.Prepare.{
  Services, prepare_candidates, build_all, move_instance_to_front, instance_index,
}
use omnillm.Dispatch.Attempts.{failure, Handlers, try_attempts}
use omnillm.Dispatch.CopilotMode
use omnillm.Dispatch.Failover
use omnillm.Dispatch.Machine
use omnillm.Dispatch.Reorder
use omnillm.Dispatch.SharedExtensions

abbrev adapter : Adapter Bool
adapter = record { remap_model = λ m. m; upstream_api = none }

abbrev provider : String → String → Provider Bool
provider id instance = record {
  id = codes id;
  instance_id = codes instance;
  is_responses_only_model = none;
  adapter = some adapter;
}

abbrev azure : Provider Bool
azure = provider "azure-openai" "azure-1"

abbrev copilot : Provider Bool
copilot = provider "github-copilot" "copilot-1"

abbrev both : List (Provider Bool)
both = azure ∷ copilot ∷ []

abbrev request : Request Bool
request = record { model = codes "gpt-4o"; stream = true; extensions = some 0; body = true }

abbrev heap : Heap
heap = record {
  cell = λ p. record empty_extensions { inbound_api_shape = some (codes "openai") };
  next = 1;
}

abbrev executor : Executor Bool
executor = SharedExtensions.gateway_executor (some default_upstream_api)

-- The resolver knows "gpt-4o" and reports everything else as unsupported; the affinity cache
-- proposes the second provider. The state counts the calls.
abbrev resolve : Text → Text → Text → ℕ → Result ResolveError (List (Provider Bool)) × ℕ
resolve m n p calls = (ok both, suc calls)

abbrev services : Services Bool ℕ
services = record {
  resolve = some resolve;
  affinity_lookup = λ r m calls. (some (codes "copilot-1"), calls);
}

-- A handler that fails on GitHub Copilot.
abbrev handlers : Handlers Bool ℕ Text
handlers = record {
  handle = λ c id calls h. elim c.request.stream [
    | true ↦ (some (failure id), suc calls, h)
    | false ↦ (none, calls, h)
  ];
  on_empty = none;
  on_error = none;
}

abbrev attempt : Attempt
attempt = record {
  requested_model = codes "gpt-4o";
  normalized_model = codes "gpt-4o";
  provider_id = [];
  only_if_previous_unavailable = false;
}

abbrev fallback : Attempt
fallback = record attempt { only_if_previous_unavailable = true }

try_attempts-Runs_example :
    let (r, w, h) =
      try_attempts handlers executor services (some request) (attempt ∷ fallback ∷ []) 0 heap in
    Machine.Runs handlers executor services
      (some request)
      (Machine.attempting (attempt ∷ fallback ∷ []) none true 0 heap)
      (Machine.finished r w h)
try_attempts-Runs_example =
    Failover.try_attempts-Runs handlers executor services (some request) (attempt ∷ fallback ∷ []) 0
      heap

try_attempts-skips_fallbacks_example :
    try_attempts handlers executor services (some request) (attempt ∷ fallback ∷ []) 0 heap
    ≡ try_attempts handlers executor services (some request) (attempt ∷ []) 0 heap
unfolding prepare_candidates build_all build_candidate instance_index front_at text_eq
try_attempts-skips_fallbacks_example =
    Failover.try_attempts-skips_fallbacks handlers executor services (some request) attempt
      (fallback ∷ []) 0 heap (refl, tt) refl

prepare_candidates-perm_example :
    (prepared : List (PreparedCandidate Bool)) × ((prepare_candidates executor services attempt
        (some request)
        0
        heap).0
      ≡ ok prepared)
    × Perm (map (λ c. c.provider_id) prepared) (Reorder.usable_ids both)
prepare_candidates-perm_example =
    Reorder.prepare_candidates-perm executor services resolve attempt request 0 heap refl refl

move_instance_to_front-head_example :
    (i : ℕ) × (q : Provider Bool) × (get_elem? both i ≡ some q)
    × (q.instance_id ≡ codes "copilot-1")
    × All (λ (r : Provider Bool). text_eq r.instance_id (codes "copilot-1") ≡ false) (take i both)
    × (move_instance_to_front both (codes "copilot-1") ≡ q ∷ (take i both ++ drop (suc i) both))
unfolding member text_eq
move_instance_to_front-head_example =
    Reorder.move_instance_to_front-head (codes "copilot-1") both (λ e. cc) refl

-- A request without extensions gets them in a new cell.
abbrev bare : Request Bool
bare = record request { extensions = none }

apply_github_copilot_single_upstream_mode_lem_example :
    (copilot.id ≢ codes "github-copilot"
      → apply_github_copilot_single_upstream_mode copilot bare heap ≡ (bare, heap))
    × (copilot.id ≡ codes "github-copilot"
        → ((apply_github_copilot_single_upstream_mode copilot bare heap).0
            ≡ record bare { extensions = some 1 })
          × ((apply_github_copilot_single_upstream_mode copilot bare heap).1.cell 1
              ≡ record empty_extensions {
                force_chat_completions =
                    if CopilotMode.speaks_responses none none (codes "gpt-4o")
                    then none
                    else some true;
                disable_auth_retry = some true;
                disable_streaming_fallback = some true;
              })
          × ((q : ℕ)
              → 1 ≢ q
              → (apply_github_copilot_single_upstream_mode copilot bare heap).1.cell q
                ≡ heap.cell q))
unfolding has_prefix empty_extensions
apply_github_copilot_single_upstream_mode_lem_example =
    CopilotMode.apply_github_copilot_single_upstream_mode_lem copilot bare heap

build_all-shared_flags_example :
    let (prepared, h) = build_all executor request both heap in
    SharedExtensions.AllAt 0 prepared
    × ((h.cell 0).disable_auth_retry ≡ some true)
    × ((h.cell 0).disable_streaming_fallback ≡ some true)
unfolding text_eq
build_all-shared_flags_example =
    SharedExtensions.build_all-shared_flags (some default_upstream_api) request 0 both heap refl
