-- ===== src/Dispatch/CopilotMode.antt =====
-- executor.go: what `ApplyGitHubCopilotSingleUpstreamMode` writes into the extensions of a request.
use omnillm.Prelude.{
  ℕ, Bool, true, false, not, ◌||◌, ◌≡◌, ◌≢◌, refl, ap, ◌∙◌, Option, none, some, Text, codes, arith,
  text_eq, text_eq_iff, to_lower, trim_space, has_prefix, if◌then◌else◌, ◌==◌, Bool-cases, inl, inr,
}
use omnillm.Dispatch.Defs.{Extensions, empty_extensions, Heap, write, Request, Provider}
use omnillm.Dispatch.Executor.{
  is_gpt5_family, is_known_copilot_responses_only_model, is_inbound_responses,
  is_marked_responses_only, ensure_extensions, set_flags, should_force_chat_completions,
  apply_github_copilot_single_upstream_mode,
}
use omnillm.Dispatch.SharedExtensions.{==_refl, set_flags-cell_ne}

-- The cell that the mode writes: the one of the extensions, or a new one.
abbrev pub place : Option ℕ → Heap → ℕ
place none h = h.next
place (some p) h = p

-- What is in it before.
abbrev pub before : Option ℕ → Heap → Extensions
before none h = empty_extensions
before (some p) h = h.cell p

-- The inbound shape is "responses", whatever the case and the space around it.
abbrev pub is_responses_shape : Option Text → Bool
is_responses_shape none = false
is_responses_shape (some shape) = text_eq (to_lower (trim_space shape)) (codes "responses")

-- The provider has marked the model.
abbrev pub is_marked : Option (Text → Bool) → Text → Bool
is_marked none model = false
is_marked (some marks) model = marks model

abbrev pub starts_with : Text → Text → Bool
starts_with model prefix = has_prefix (to_lower (trim_space model)) prefix

-- The request came in the Responses dialect, or its model is one for it.
abbrev pub speaks_responses : Option Text → Option (Text → Bool) → Text → Bool
speaks_responses shape marks model =
    is_responses_shape shape
    || (is_marked marks model
        || (starts_with model (codes "mai-code-1-flash") || starts_with model (codes "gpt-5")))

set_flags_self :
    (force : Bool) (p : ℕ) (h : Heap)
    → (set_flags force p h).cell p ≡ record (h.cell p) {
      force_chat_completions = if force then some true else (h.cell p).force_chat_completions;
      disable_auth_retry = some true;
      disable_streaming_fallback = some true;
    }
unfolding set_flags write
set_flags_self force p h = rw (==_refl p)

inbound-shape :
    (e : Extensions) (o : Option Text)
    → e.inbound_api_shape ≡ o
    → is_inbound_responses (some e) ≡ is_responses_shape o
unfolding is_inbound_responses
inbound-shape e none h = rw h refl
inbound-shape e (some shape) h = rw h refl

marked-model :
    (o : Option (Text → Bool)) (model : Text) → is_marked_responses_only o model ≡ is_marked o model
unfolding is_marked_responses_only
marked-model none model = refl
marked-model (some marks) model = refl

ensured_place : (o : Option ℕ) (h : Heap) → (ensure_extensions o h).0 ≡ place o h
unfolding ensure_extensions
ensured_place none h = refl
ensured_place (some p) h = refl

ensured_before : (o : Option ℕ) (h : Heap) → (ensure_extensions o h).1.cell (place o h) ≡ before o h
unfolding ensure_extensions write
ensured_before none h = rw (==_refl h.next) refl
ensured_before (some p) h = refl

ensured_elsewhere :
    (o : Option ℕ) (h : Heap) (q : ℕ) → place o h ≢ q → (ensure_extensions o h).1.cell q ≡ h.cell q
unfolding ensure_extensions write
ensured_elsewhere none h q ne = rw (other h.next q ne) refl
  where
    other : (a b : ℕ) → a ≢ b → (a == b) ≡ false
    other a b n = ground arith
ensured_elsewhere (some p) h q ne = refl

abbrev with_flags : Bool → Extensions → Extensions
with_flags force x = record x {
  force_chat_completions = if force then some true else x.force_chat_completions;
  disable_auth_retry = some true;
  disable_streaming_fallback = some true;
}

by_speaks :
    (b : Bool) (x : Extensions)
    → with_flags (not b) x ≡ record x {
      force_chat_completions = if b then x.force_chat_completions else some true;
      disable_auth_retry = some true;
      disable_streaming_fallback = some true;
    }
by_speaks true x = refl
by_speaks false x = refl

module _ {B : Type 0} (provider : Provider B) (request : Request B) (h : Heap) where
  abbrev moded : Request B × Heap
  moded = apply_github_copilot_single_upstream_mode provider request h

  abbrev ensured : Heap
  ensured = (ensure_extensions request.extensions h).1

  abbrev cell : ℕ
  cell = place request.extensions h

  abbrev pointed : Request B
  pointed = record request { extensions = some cell }

  abbrev speaks : Bool
  speaks =
      speaks_responses (before request.extensions h).inbound_api_shape
        provider.is_responses_only_model request.model

  forced_lem : should_force_chat_completions ensured provider pointed ≡ not speaks
  unfolding should_force_chat_completions is_gpt5_family is_known_copilot_responses_only_model
  forced_lem = ground (
    arith,
    ap (λ e. is_inbound_responses (some e)) (ensured_before request.extensions h),
    inbound-shape (before request.extensions h) (before request.extensions h).inbound_api_shape
        refl,
    marked-model provider.is_responses_only_model request.model,
  )

  moded_lem :
      provider.id ≡ codes "github-copilot"
      → moded
        ≡ (pointed, set_flags (should_force_chat_completions ensured provider pointed) cell ensured)
  unfolding apply_github_copilot_single_upstream_mode
  moded_lem e = rw ((text_eq_iff provider.id (codes "github-copilot")).1 e) (
      ap
        (λ p.
          let r : Request B = record request { extensions = some p } in
          (r, set_flags (should_force_chat_completions ensured provider r) p ensured))
        (ensured_place request.extensions h))

  unmoded_lem : provider.id ≢ codes "github-copilot" → moded ≡ (request, h)
  unfolding apply_github_copilot_single_upstream_mode
  unmoded_lem ne = elim (Bool-cases (text_eq provider.id (codes "github-copilot"))) [
    | inl e ↦ elim (ne ((text_eq_iff provider.id (codes "github-copilot")).0 e)) [ ]
    | inr e ↦ rw e refl
  ]

  -- On a provider other than GitHub Copilot the mode changes nothing. On GitHub Copilot the request
  -- points to its extensions, in a new cell if it had none, and is otherwise as before; there the
  -- two `Disable` flags are set, and `ForceChatCompletions` is set unless the request came in the
  -- Responses dialect, the provider marks the model as one for it, or the model is named
  -- "mai-code-1-flash..." or "gpt-5..."; the rest of the cell and every other cell are as before.
  pub apply_github_copilot_single_upstream_mode_lem :
      (provider.id ≢ codes "github-copilot"
        → apply_github_copilot_single_upstream_mode provider request h ≡ (request, h))
      × (provider.id ≡ codes "github-copilot"
          → ((apply_github_copilot_single_upstream_mode provider request h).0
              ≡ record request { extensions = some (place request.extensions h) })
            × ((apply_github_copilot_single_upstream_mode provider request h).1.cell
                  (place request.extensions h)
                ≡ record (before request.extensions h) {
                  force_chat_completions =
                      if speaks_responses
                        (before request.extensions h).inbound_api_shape
                        provider.is_responses_only_model
                        request.model
                      then (before request.extensions h).force_chat_completions
                      else some true;
                  disable_auth_retry = some true;
                  disable_streaming_fallback = some true;
                })
            × ((q : ℕ)
                → place request.extensions h ≢ q
                → (apply_github_copilot_single_upstream_mode provider request h).1.cell q
                  ≡ h.cell q))
  apply_github_copilot_single_upstream_mode_lem = (
    unmoded_lem,
    λ e. (
      ap (λ m. m.0) (moded_lem e),
      ap (λ m. m.1.cell cell) (moded_lem e)
          ∙ set_flags_self (should_force_chat_completions ensured provider pointed) cell ensured
          ∙ written,
      λ q ne.
          ap (λ m. m.1.cell q) (moded_lem e)
          ∙ set_flags-cell_ne (should_force_chat_completions ensured provider pointed) cell q
              ensured ne
          ∙ ensured_elsewhere request.extensions h q ne,
    ),
  )
    where
      written :
          with_flags (should_force_chat_completions ensured provider pointed) (ensured.cell cell)
          ≡ record (before request.extensions h) {
            force_chat_completions =
                if speaks then (before request.extensions h).force_chat_completions else some true;
            disable_auth_retry = some true;
            disable_streaming_fallback = some true;
          }
      written =
          ap (with_flags (should_force_chat_completions ensured provider pointed))
            (ensured_before request.extensions h)
          ∙ ap (λ f. with_flags f (before request.extensions h)) forced_lem
          ∙ by_speaks speaks (before request.extensions h)
