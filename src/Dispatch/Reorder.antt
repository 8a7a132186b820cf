-- ===== src/Dispatch/Reorder.antt =====
-- Affinity only reorders the candidates of an attempt.
use mathlib.Core.List.{filter_map}
use mathlib.Core.List.Perm
use native.Mathlib.Nat.{add-zero}
use mathlib.Core.Option.{Option-elim}
use omnillm.Prelude.{
  ℕ, suc, ◌+◌, true, false, ◌||◌, ◌≡◌, ◌≢◌, refl, ap, subst, ◌∙◌, Option, none, some, List, [], ◌∷◌,
  ◌++◌, map, All, Perm, Text, arith, text_eq, text_eq_iff, length, ltb, get_elem?, take, drop,
  front_at-some, front_at-perm, inl, inr, Bool-cases, Option-cases, member,
}
use omnillm.Dispatch.Defs.{
  Heap, Request, Adapter, Provider, PreparedCandidate, Attempt, ResolveError, PrepareError, Result,
  ok, err,
}
use omnillm.Dispatch.Executor.{Executor, build_with, build_candidate}
use omnillm.Dispatch.Prepare.{
  Services, instance_index, move_instance_to_front, attempt_model, add_built, build_all, reorder,
  prepare_providers, prepare_route, prepare_candidates,
}

module _ {B : Type 0} where
  move_instance_to_front-perm :
      (ps : List (Provider B)) (inst : Text) → Perm (move_instance_to_front ps inst) ps
  unfolding move_instance_to_front
  move_instance_to_front-perm ps inst = elim (Bool-cases (text_eq inst [] || ltb (length ps) 2)) [
    | inl h ↦ rw h (Perm.refl ps)
    | inr h ↦ rw h (elim (Option-cases (instance_index 0 inst ps)) [
      | inl e ↦ rw e (Perm.refl ps)
      | inr (i, e) ↦ rw e (front_at-perm i ps)
    ])
  ]

  reorder-perm : (ps : List (Provider B)) (inst : Option Text) → Perm (reorder ps inst) ps
  unfolding reorder
  reorder-perm ps none = Perm.refl ps
  reorder-perm ps (some inst) = move_instance_to_front-perm ps inst

  -- The instance of a provider that dispatch can use.
  abbrev id_with : Text → Option (Adapter B) → Option Text
  id_with id none = none
  id_with id (some a) = some id

  -- The instances of the providers that have an adapter.
  abbrev pub usable_ids : List (Provider B) → List Text
  usable_ids = filter_map (λ p. id_with p.instance_id p.adapter)

  build_with-ids :
      (e : Executor B) (p : Provider B) (o : Option (Adapter B)) (request : Request B) (h : Heap)
      (rest : List (PreparedCandidate B)) (ids : List Text)
      → map (λ c. c.provider_id) rest ≡ ids
      → map (λ c. c.provider_id) (add_built p.instance_id (build_with e p o request h).0 rest)
        ≡ Option-elim (id_with p.instance_id o) ids (λ id. id ∷ ids)
  unfolding add_built build_with Option-elim
  build_with-ids e p none request h rest ids eq = eq
  build_with-ids e p (some a) request h rest ids eq = ap (◌∷◌ p.instance_id) eq

  build_all-ids :
      (e : Executor B) (request : Request B) (ps : List (Provider B)) (h : Heap)
      → map (λ c. c.provider_id) (build_all e request ps h).0 ≡ usable_ids ps
  unfolding build_all build_candidate filter_map
  build_all-ids e request [] h = refl
  build_all-ids e request (p ∷ ps) h =
      build_with-ids e p p.adapter request h _ _
        (build_all-ids e request ps (build_candidate e (some p) request h).1)

  abbrev IsPrepared : List (Provider B) → Result PrepareError (List (PreparedCandidate B)) → Type 0
  IsPrepared ps r =
      (prepared : List (PreparedCandidate B)) × (r ≡ ok prepared)
      × Perm (map (λ c. c.provider_id) prepared) (usable_ids ps)

  prepare_providers-perm :
      {W : Type 0} (e : Executor B) (s : Services B W) (a : Attempt) (request : Request B)
      (ps : List (Provider B)) (w : W) (h : Heap)
      → Perm (map (λ c. c.provider_id) (prepare_providers e s a request ps w h).0) (usable_ids ps)
  unfolding prepare_providers filter_map
  prepare_providers-perm e s a request [] w h = Perm.refl []
  prepare_providers-perm e s a request (p ∷ ps) w h =
      let inst = (s.affinity_lookup request a.requested_model w).0 in
      rw (build_all-ids e (record request { model = attempt_model a }) (reorder (p ∷ ps) inst) h) (
        Perm.filter_map (λ (q : Provider B). id_with q.instance_id q.adapter)
          (reorder-perm (p ∷ ps) inst))

  prepare_route-perm :
      {W : Type 0} (e : Executor B) (s : Services B W) (a : Attempt) (request : Request B)
      (r : Result ResolveError (List (Provider B))) (w : W) (h : Heap) {ps : List (Provider B)}
      → r ≡ ok ps
      → IsPrepared ps (prepare_route e s a request r w h).0
  unfolding prepare_route
  prepare_route-perm e s a request (err x) w h eq = cc
  prepare_route-perm e s a request (ok qs) w h {ps} eq =
      subst (λ l. IsPrepared l (prepare_route e s a request (ok qs) w h).0) (ok_injective eq)
        (_, refl, prepare_providers-perm e s a request qs w h)
    where
      ok_injective :
          (let r : Result ResolveError (List (Provider B)) = ok qs in r ≡ ok ps) → qs ≡ ps
      ok_injective q = cc

  -- If the resolver returns providers, the attempt is prepared; its candidates are those of the
  -- providers that have an adapter, each as often as the resolver named it, whatever instance the
  -- affinity cache proposes.
  pub prepare_candidates-perm :
      {W : Type 0} (e : Executor B) (s : Services B W)
      (resolve : Text → Text → Text → W → Result ResolveError (List (Provider B)) × W) (a : Attempt)
      (request : Request B) (w : W) (h : Heap) {ps : List (Provider B)}
      → s.resolve ≡ some resolve
      → (resolve a.requested_model a.normalized_model a.provider_id w).0 ≡ ok ps
      → IsPrepared ps (prepare_candidates e s a (some request) w h).0
  unfolding prepare_candidates
  prepare_candidates-perm e s resolve a request w h sr eq =
      rw (sr, prepare_candidates) (prepare_route-perm e s a request _ _ h eq)

  abbrev pub Found : ℕ → Text → List (Provider B) → Type 0
  Found n inst ps =
      (i : ℕ) × (q : Provider B) × (instance_index n inst ps ≡ some (n + i))
      × (get_elem? ps i ≡ some q)
      × (q.instance_id ≡ inst)
      × All (λ (r : Provider B). text_eq r.instance_id inst ≡ false) (take i ps)

  instance_index-Found :
      (n : ℕ) (inst : Text) (ps : List (Provider B))
      → member inst (map (λ p. p.instance_id) ps) ≡ true
      → Found n inst ps
  unfolding instance_index member
  instance_index-Found n inst [] m = cc
  instance_index-Found n inst (p ∷ ps) m = elim (Bool-cases (text_eq p.instance_id inst)) [
    | inl here ↦ (0, p, rw (here, add-zero), refl, (text_eq_iff p.instance_id inst).0 here, tt)
    | inr there ↦
        let (i, q, e, g, h, f) = instance_index-Found (suc n) inst ps (ground arith) in
        (suc i, q, rw there (e ∙ ap some (omega arith)), g, h, (there, f))
  ]

  -- If the instance that the affinity cache proposes, which is not the empty one, is among the
  -- candidates, its first occurrence goes to the front and the others keep their order.
  pub move_instance_to_front-head :
      (inst : Text) (ps : List (Provider B))
      → inst ≢ []
      → member inst (map (λ p. p.instance_id) ps) ≡ true
      → (i : ℕ) × (q : Provider B) × (get_elem? ps i ≡ some q)
        × (q.instance_id ≡ inst)
        × All (λ (r : Provider B). text_eq r.instance_id inst ≡ false) (take i ps)
        × (move_instance_to_front ps inst ≡ q ∷ (take i ps ++ drop (suc i) ps))
  unfolding move_instance_to_front member
  move_instance_to_front-head inst [] ne m = cc
  move_instance_to_front-head inst (p ∷ []) ne m =
      (0, p, refl, ground (arith, text_eq_iff p.instance_id inst), tt, ground arith)
  move_instance_to_front-head inst (p ∷ p' ∷ ps) ne m =
      let (i, q, e, g, h, f) = instance_index-Found 0 inst (p ∷ p' ∷ ps) m in
      (i, q, g, h, f, ground (arith, text_eq_iff inst [], front_at-some i (p ∷ p' ∷ ps) {x = q} g))
