-- ===== src/Dispatch/Executor.antt =====
-- executor.go: the candidate of one provider, and the mode that GitHub Copilot requests get.
use omnillm.Prelude.{
  ℕ, suc, Bool, true, false, not, ◌&&◌, Option, none, some, Text, codes, text_eq, to_lower,
  trim_space, has_prefix, contains, if◌then◌else◌,
}
use omnillm.Dispatch.Defs.{
  Extensions, empty_extensions, Heap, write, Request, Adapter, Provider, Candidate, BuildError,
  provider_is_nil, no_adapter, Result, ok, err,
}

-- `shared.IsGPT5Family`
unfoldable pub is_gpt5_family : Text → Bool
is_gpt5_family model = has_prefix (to_lower (trim_space model)) (codes "gpt-5")

unfoldable pub is_known_copilot_responses_only_model : Text → Bool
is_known_copilot_responses_only_model model =
    has_prefix (to_lower (trim_space model)) (codes "mai-code-1-flash")

-- `strings.EqualFold(strings.TrimSpace(shape), "responses")`, of the shape in the extensions.
unfoldable pub is_inbound_responses : Option Extensions → Bool
is_inbound_responses none = false
is_inbound_responses (some e) = elim e.inbound_api_shape [
  | none ↦ false
  | some shape ↦ text_eq (to_lower (trim_space shape)) (codes "responses")
]

unfoldable pub is_marked_responses_only : Option (Text → Bool) → Text → Bool
is_marked_responses_only none model = false
is_marked_responses_only (some checker) model = checker model

abbrev pub deref : Heap → Option ℕ → Option Extensions
deref h none = none
deref h (some p) = some (h.cell p)

-- `if request.Extensions == nil { request.Extensions = &cif.Extensions{} }`
unfoldable pub ensure_extensions : Option ℕ → Heap → ℕ × Heap
unfolding write
ensure_extensions (some p) h = (p, h)
ensure_extensions none h = (h.next, record (write h.next empty_extensions h) { next = suc h.next })

-- The three writes through `request.Extensions`.
unfoldable pub set_flags : Bool → ℕ → Heap → Heap
unfolding write
set_flags force p h =
    let e = h.cell p in
    write p
      (record e {
        force_chat_completions = if force then some true else e.force_chat_completions;
        disable_auth_retry = some true;
        disable_streaming_fallback = some true;
      })
      h

-- `DefaultUpstreamAPI`
unfoldable pub default_upstream_api : Text → Text → Text
default_upstream_api provider_id model =
    if text_eq provider_id (codes "azure-openai") && contains (to_lower model) (codes "gpt-5.4")
    then codes "responses"
    else codes "chat.completions"

-- `Executor`; `prepare_request` may be nil, as may the default.
pub record Executor (B : Type 0) : Type 0 where
  pub prepare_request : Option (Provider B → Request B → Heap → Request B × Heap)
  pub default_upstream_api : Option (Text → Text → Text)

module _ {B : Type 0} where
  unfoldable pub should_force_chat_completions : Heap → Provider B → Request B → Bool
  should_force_chat_completions h provider request =
      if is_inbound_responses (deref h request.extensions)
      then false
      else if is_marked_responses_only provider.is_responses_only_model request.model
      then false
      else if is_known_copilot_responses_only_model request.model
      then false
      else if is_gpt5_family request.model
      then false
      else true

  -- `ApplyGitHubCopilotSingleUpstreamMode` on a provider and a request that are not nil: the
  -- request as its caller sees it afterwards, and the heap.
  unfoldable pub apply_github_copilot_single_upstream_mode :
      Provider B → Request B → Heap → Request B × Heap
  unfolding should_force_chat_completions ensure_extensions set_flags
  apply_github_copilot_single_upstream_mode provider request h =
      if not (text_eq provider.id (codes "github-copilot"))
      then (request, h)
      else (let (p, h₁) = ensure_extensions request.extensions h in
          let r = record request { extensions = some p } in
          (r, set_flags (should_force_chat_completions h₁ provider r) p h₁))

  unfoldable pub detect_upstream_api :
      Option (Text → Text → Text) → Text → Adapter B → Heap → Request B → Text → Text
  detect_upstream_api default provider_id adapter h request model = elim adapter.upstream_api [
    | some reporter ↦ reporter h request model
    | none ↦ elim default [ some f ↦ f provider_id model | none ↦ codes "chat.completions" ]
  ]

  unfoldable pub prepared_request : Executor B → Provider B → Request B → Heap → Request B × Heap
  prepared_request e provider request h = elim e.prepare_request [
    | none ↦ (request, h)
    | some prepare ↦ prepare provider request h
  ]

  -- `BuildCandidate` behind its checks.
  unfoldable pub candidate_of :
      Executor B → Provider B → Adapter B → Request B → Heap → Candidate B × Heap
  unfolding prepared_request detect_upstream_api
  candidate_of e provider adapter request h =
      let (r, h') = prepared_request e provider request h in
      let upstream_model = adapter.remap_model r.model in
      let sent = record r { model = upstream_model } in
      (
        record {
          provider = provider;
          adapter = adapter;
          request = sent;
          canonical_model = r.model;
          upstream_model = upstream_model;
          upstream_api =
              detect_upstream_api e.default_upstream_api provider.id adapter h' sent upstream_model;
        },
        h',
      )

  -- `BuildCandidate`: the checks for nil, of the adapter and of the provider.
  unfoldable pub build_with :
      Executor B
      → Provider B
      → Option (Adapter B)
      → Request B
      → Heap
      → Result BuildError (Candidate B) × Heap
  build_with e provider none request h = (err (no_adapter provider.instance_id), h)
  build_with e provider (some adapter) request h =
      let (candidate, h') = candidate_of e provider adapter request h in (ok candidate, h')

  unfoldable pub build_candidate :
      Executor B → Option (Provider B) → Request B → Heap → Result BuildError (Candidate B) × Heap
  unfolding build_with
  build_candidate e none request h = (err provider_is_nil, h)
  build_candidate e (some provider) request h = build_with e provider provider.adapter request h
