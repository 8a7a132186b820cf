-- ===== src/Routing/Coverage.antt =====
-- What the attempts for a requested model cover.
use mathlib.Core.List.Perm
use omnillm.Prelude.{
  ℕ, ◌≡◌, refl, inl, inr, false, not, Option, none, some, List, [], ◌∷◌, Text, text_eq, Perm, map,
  if_cases, Option-cases, front_at-perm,
}
use omnillm.Routing.References.{Reference, instance_of, ambiguous, not_found}
use omnillm.Routing.Resolution.{
  VirtualModel, Catalog, ResolvedAttempt, Resolved, attempts, ambiguous_reference, panicked,
  plain_attempt, upstream_attempt_at, upstream_attempt, upstream_attempts, append_fallback,
  append_provider_prefix_fallback, requested_virtual_model, ordered_attempts, resolve_with,
  resolve_requested_models, affinity_index, prefer_affinity_attempt,
}
use omnillm.VirtualModels.Defs.{Upstream, RrState}

-- There is a first attempt, and it is tried in any case.
abbrev pub HasFirst : Resolved → Type 0
HasFirst (attempts tries) =
    (a : ResolvedAttempt) × (rest : List ResolvedAttempt) × (tries ≡ a ∷ rest)
    × (a.only_if_previous_unavailable ≡ false)
HasFirst (ambiguous_reference r ids) = Unit
HasFirst panicked = Unit

append_fallback-HasFirst :
    (m bare : Text) (r : Reference) → HasFirst (append_fallback (plain_attempt m ∷ []) bare r)
unfolding append_fallback
append_fallback-HasFirst m bare (instance_of id) =
    if_cases HasFirst (text_eq bare []) _ _ (λ _. (plain_attempt m, _, refl, refl))
      (λ _. (plain_attempt m, _, refl, refl))
append_fallback-HasFirst m bare (ambiguous r ids) =
    if_cases HasFirst (text_eq bare []) _ _ (λ _. (plain_attempt m, _, refl, refl)) (λ _. tt)
append_fallback-HasFirst m bare (not_found r) = (plain_attempt m, _, refl, refl)

fallback-HasFirst :
    (c : Catalog) (m : Text) → HasFirst (append_provider_prefix_fallback c (plain_attempt m ∷ []) m)
unfolding append_provider_prefix_fallback
fallback-HasFirst c m = append_fallback-HasFirst m _ _

upstream_attempt_at-first :
    (u : Upstream) (o : Option Text)
    → (upstream_attempt_at u o).only_if_previous_unavailable ≡ false
unfolding upstream_attempt_at
upstream_attempt_at-first u none = refl
upstream_attempt_at-first u (some id) = refl

ordered_attempts-HasFirst :
    (c : Catalog) (m : Text) (o : Option (List Upstream)) → HasFirst (ordered_attempts c m o)
unfolding ordered_attempts
ordered_attempts-HasFirst c m none = tt
ordered_attempts-HasFirst c m (some []) = (plain_attempt m, [], refl, refl)
ordered_attempts-HasFirst c m (some (u ∷ us)) =
    (upstream_attempt c u, upstream_attempts c us, refl, upstream_attempt_at-first u _)

resolve_with-HasFirst :
    (c : Catalog) (intn : ℕ → ℕ) (m : Text) (rr : RrState) (vm : Option VirtualModel)
    → HasFirst (resolve_with c intn m rr vm).0
unfolding resolve_with
resolve_with-HasFirst c intn m rr none = fallback-HasFirst c m
resolve_with-HasFirst c intn m rr (some vm) =
    if_cases (λ (r : Resolved × RrState). HasFirst r.0) (not vm.enabled) _ _
      (λ _. fallback-HasFirst c m) (λ _. ordered_attempts-HasFirst c m _)

-- Whatever the catalog holds, if a name resolves to attempts then there is at least one, and the
-- first is not conditional on another.
pub resolve_requested_models-HasFirst :
    (c : Catalog) (intn : ℕ → ℕ) (requested_model : Text) (rr : RrState)
    → HasFirst (resolve_requested_models c intn requested_model rr).0
unfolding resolve_requested_models
resolve_requested_models-HasFirst c intn m rr =
    resolve_with-HasFirst c intn m rr (requested_virtual_model c m)

abbrev pub Covers : Catalog → List Upstream → Resolved → Type 0
Covers c us r =
    (tries : List ResolvedAttempt) × (r ≡ attempts tries) × Perm tries (map (upstream_attempt c) us)

-- The preference for a pinned instance only reorders the attempts.
pub prefer_affinity_attempt-perm :
    (pinned : Option Text) (tries : List ResolvedAttempt)
    → Perm (prefer_affinity_attempt pinned tries) tries
unfolding prefer_affinity_attempt
prefer_affinity_attempt-perm none tries = Perm.refl tries
prefer_affinity_attempt-perm (some i) [] = Perm.refl []
prefer_affinity_attempt-perm (some i) (a ∷ tries) = elim (Option-cases (affinity_index 1 i tries)) [
  | inl e ↦ rw (e, prefer_affinity_attempt) (Perm.refl (a ∷ tries))
  | inr (n, e) ↦ rw (e, prefer_affinity_attempt) (front_at-perm n (a ∷ tries))
]
