-- ===== src/Dispatch/Prepare.antt =====
-- prepare.go: the candidates of one attempt, with the affinity instance in front.
use omnillm.Prelude.{
  ℕ, suc, not, ◌&&◌, ◌||◌, Option, none, some, List, [], ◌∷◌, Text, text_eq, ltb, length, front_at,
  if◌then◌else◌,
}
use omnillm.Dispatch.Defs.{
  Heap, Request, Provider, Candidate, PreparedCandidate, Attempt, ResolveError, PrepareError,
  BuildError, request_is_nil, resolve_is_nil, resolve_error, Result, ok, err,
}
use omnillm.Dispatch.Executor.{Executor, build_candidate}

-- The model name that the candidates of an attempt are asked for.
unfoldable pub attempt_model : Attempt → Text
attempt_model a =
    if text_eq a.provider_id [] && not (text_eq a.normalized_model a.requested_model)
    then a.normalized_model
    else a.requested_model

-- What `PrepareCandidates` calls: the resolver, which may be nil, and `affinity.Get().Lookup`.
-- Each reads and changes a state of its own, `W`.
pub record Services (B W : Type 0) : Type 0 where
  pub resolve : Option (Text → Text → Text → W → Result ResolveError (List (Provider B)) × W)
  pub affinity_lookup : Request B → Text → W → Option Text × W

module _ {B : Type 0} where
  -- The loop of `moveInstanceToFront`: the first index with the ID.
  unfoldable pub instance_index : ℕ → Text → List (Provider B) → Option ℕ
  instance_index i instance_id [] = none
  instance_index i instance_id (p ∷ ps) =
      if text_eq p.instance_id instance_id then some i else instance_index (suc i) instance_id ps

  unfoldable pub move_instance_to_front : List (Provider B) → Text → List (Provider B)
  move_instance_to_front providers instance_id =
      if text_eq instance_id [] || ltb (length providers) 2
      then providers
      else elim (instance_index 0 instance_id providers) [
        | none ↦ providers
        | some i ↦ front_at i providers
      ]

  -- `prepared = append(prepared, …)`, where the provider could be built.
  unfoldable pub add_built :
      Text
      → Result BuildError (Candidate B)
      → List (PreparedCandidate B)
      → List (PreparedCandidate B)
  add_built provider_id (err x) rest = rest
  add_built provider_id (ok c) rest = record { candidate = c; provider_id = provider_id } ∷ rest

  -- The loop over the candidate providers; one that cannot be built is passed over.
  unfoldable pub build_all :
      Executor B → Request B → List (Provider B) → Heap → List (PreparedCandidate B) × Heap
  unfolding add_built
  build_all e request [] h = ([], h)
  build_all e request (p ∷ ps) h =
      let (built, h₁) = build_candidate e (some p) request h in
      let (rest, h₂) = build_all e request ps h₁ in (add_built p.instance_id built rest, h₂)

  unfoldable pub reorder : List (Provider B) → Option Text → List (Provider B)
  unfolding move_instance_to_front
  reorder providers none = providers
  reorder providers (some inst) = move_instance_to_front providers inst

  -- `PrepareCandidates` behind a resolver that returned providers.
  unfoldable pub prepare_providers :
      {W : Type 0}
      → Executor B
      → Services B W
      → Attempt
      → Request B
      → List (Provider B)
      → W
      → Heap
      → List (PreparedCandidate B) × W × Heap
  unfolding reorder attempt_model
  prepare_providers e s a request [] w h = ([], w, h)
  prepare_providers e s a request (p ∷ ps) w h =
      let (inst, w') = s.affinity_lookup request a.requested_model w in
      let (prepared, h') =
        build_all e (record request { model = attempt_model a }) (reorder (p ∷ ps) inst) h in
      (prepared, w', h')

  unfoldable pub prepare_route :
      {W : Type 0}
      → Executor B
      → Services B W
      → Attempt
      → Request B
      → Result ResolveError (List (Provider B))
      → W
      → Heap
      → Result PrepareError (List (PreparedCandidate B)) × W × Heap
  unfolding prepare_providers
  prepare_route e s a request (err x) w h = (err (resolve_error x), w, h)
  prepare_route e s a request (ok providers) w h =
      let (prepared, w', h') = prepare_providers e s a request providers w h in
      (ok prepared, w', h')

  unfoldable pub prepare_candidates :
      {W : Type 0}
      → Executor B
      → Services B W
      → Attempt
      → Option (Request B)
      → W
      → Heap
      → Result PrepareError (List (PreparedCandidate B)) × W × Heap
  unfolding prepare_route
  prepare_candidates e s a none w h = (err request_is_nil, w, h)
  prepare_candidates e s a (some request) w h = elim s.resolve [
    | none ↦ (err resolve_is_nil, w, h)
    | some resolve ↦
        let (route, w') = resolve a.requested_model a.normalized_model a.provider_id w in
        prepare_route e s a request route w' h
  ]
