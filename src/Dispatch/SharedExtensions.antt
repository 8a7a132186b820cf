-- ===== src/Dispatch/SharedExtensions.antt =====
-- What the candidates of one request share: the cell of its extensions.
use omnillm.Prelude.{
  ℕ, Bool, true, false, ◌&&◌, ◌||◌, is_some, ◌≡◌, ◌≢◌, ◌⊎◌, refl, Option, none, some, List, [], ◌∷◌,
  Text, codes, arith, text_eq, All, if◌then◌else◌, ◌==◌, Bool-cases, inl, inr,
}
use omnillm.Dispatch.Defs.{
  Extensions, Heap, write, Request, Adapter, Provider, Candidate, PreparedCandidate, BuildError,
  Result, ok, err,
}
use omnillm.Dispatch.Executor.{
  Executor, should_force_chat_completions, set_flags, apply_github_copilot_single_upstream_mode,
  prepared_request, candidate_of, build_with, build_candidate,
}
use omnillm.Dispatch.Prepare.{add_built, build_all}

abbrev copilot : Text
copilot = codes "github-copilot"

-- The executor that the routes build.
abbrev pub gateway_executor : {B : Type 0} → Option (Text → Text → Text) → Executor B
gateway_executor default = record {
  prepare_request = some apply_github_copilot_single_upstream_mode;
  default_upstream_api = default;
}

-- The two flags that the mode always sets.
abbrev pub IsFlagged : Extensions → Type 0
IsFlagged e = (e.disable_auth_retry ≡ some true) × (e.disable_streaming_fallback ≡ some true)

pub ==_refl : (p : ℕ) → (p == p) ≡ true
==_refl p = ground arith

set_flags-cell : (force : Bool) (p : ℕ) (h : Heap) → IsFlagged ((set_flags force p h).cell p)
unfolding set_flags write
set_flags-cell force p h = rw (==_refl p) (refl, refl)

pub set_flags-cell_ne :
    (force : Bool) (p q : ℕ) (h : Heap) → p ≢ q → (set_flags force p h).cell q ≡ h.cell q
unfolding set_flags write
set_flags-cell_ne force p q h ne = rw (ne_test p q ne) refl
  where
    ne_test : (a b : ℕ) → a ≢ b → (a == b) ≡ false
    ne_test a b h = ground arith

module _ {B : Type 0} (provider : Provider B) where
  abbrev is_copilot : Bool
  is_copilot = text_eq provider.id copilot

  module _ (request : Request B) (p : ℕ) (h : Heap) where
    -- The request with a pointer to the cell `p`.
    abbrev at_cell : Request B
    at_cell = record request { extensions = some p }

    abbrev moded : Request B × Heap
    moded = apply_github_copilot_single_upstream_mode provider at_cell h

    moded-request : moded.0 ≡ at_cell
    unfolding apply_github_copilot_single_upstream_mode
    moded-request = elim (Bool-cases is_copilot) [ inl e ↦ rw e | inr e ↦ rw e ]

    moded-heap : moded.1 ≡ (
        if is_copilot then set_flags (should_force_chat_completions h provider at_cell) p h else h)
    unfolding apply_github_copilot_single_upstream_mode
    moded-heap = elim (Bool-cases is_copilot) [ inl e ↦ rw e | inr e ↦ rw e ]

    -- The heap behind `BuildCandidate`.
    build_with-heap :
        (d : Option (Text → Text → Text)) (o : Option (Adapter B))
        → (build_with (gateway_executor d) provider o at_cell h).1 ≡ (
            if is_copilot && is_some o
            then set_flags (should_force_chat_completions h provider at_cell) p h
            else h)
    unfolding build_with candidate_of prepared_request
    build_with-heap d none = ground arith
    build_with-heap d (some a) = ground (arith, moded-heap)

    build_with-shares :
        (d : Option (Text → Text → Text)) (o : Option (Adapter B)) {c : Candidate B}
        → (build_with (gateway_executor d) provider o at_cell h).0 ≡ ok c
        → c.request.extensions ≡ some p
    unfolding build_with candidate_of prepared_request
    build_with-shares d none eq = cc
    build_with-shares d (some a) eq = ground (arith, moded-request)

module _ {B : Type 0} where
  -- Some provider of the list is GitHub Copilot's and has an adapter.
  abbrev pub any_copilot : List (Provider B) → Bool
  any_copilot [] = false
  any_copilot (q ∷ ps) = (text_eq q.id copilot && is_some q.adapter) || any_copilot ps

  -- All candidates point to the cell `p`.
  abbrev pub AllAt : ℕ → List (PreparedCandidate B) → Type 0
  AllAt p = All (λ c. c.candidate.request.extensions ≡ some p)

  module _ (d : Option (Text → Text → Text)) (request : Request B) (p : ℕ) where
    add_built-AllAt :
        (q : Provider B) (h : Heap) (r : Result BuildError (Candidate B))
        (rest : List (PreparedCandidate B))
        → (build_candidate (gateway_executor d) (some q) (at_cell q request p h) h).0 ≡ r
        → AllAt p rest
        → AllAt p (add_built q.instance_id r rest)
    unfolding add_built build_candidate
    add_built-AllAt q h (err x) rest eq all = all
    add_built-AllAt q h (ok c) rest eq all = (build_with-shares q request p h d q.adapter eq, all)

    build_all-AllAt :
        (ps : List (Provider B)) (h : Heap)
        → AllAt p (build_all (gateway_executor d) (record request { extensions = some p }) ps h).0
    unfolding build_all
    build_all-AllAt [] h = tt
    build_all-AllAt (q ∷ ps) h = add_built-AllAt q h _ _ refl (build_all-AllAt ps _)

    -- A flagged cell stays flagged, and GitHub Copilot's candidate flags it.
    build_all-IsFlagged :
        (ps : List (Provider B)) (h : Heap)
        → ((any_copilot ps ≡ true) ⊎ IsFlagged (h.cell p))
        → IsFlagged (
            (build_all (gateway_executor d) (record request { extensions = some p }) ps h).1.cell p)
    unfolding build_all build_candidate
    build_all-IsFlagged [] h (inl e) = cc
    build_all-IsFlagged [] h (inr f) = f
    build_all-IsFlagged (q ∷ ps) h i =
        build_all-IsFlagged ps
          (build_with (gateway_executor d) q q.adapter (at_cell q request p h) h).1
          (elim (Bool-cases (text_eq q.id copilot && is_some q.adapter)) [
            | inl t ↦ inr (rw (build_with-heap q request p h d q.adapter, t) (set_flags-cell _ p h))
            | inr f ↦ rw (build_with-heap q request p h d q.adapter, f) (ground (arith, i))
          ])

    -- For a request that has extensions, as every request of the gateway does, one GitHub Copilot
    -- provider with an adapter among the candidates, in any place, turns the streaming fallback and
    -- the retry of authentication off for all candidates: they point to one cell, and it has both
    -- flags set.
    pub build_all-shared_flags :
        (ps : List (Provider B)) (h : Heap)
        → any_copilot ps ≡ true
        → let (prepared, h') =
            build_all (gateway_executor d) (record request { extensions = some p }) ps h in
          AllAt p prepared
          × ((h'.cell p).disable_auth_retry ≡ some true)
          × ((h'.cell p).disable_streaming_fallback ≡ some true)
    build_all-shared_flags ps h e =
        let f = build_all-IsFlagged ps h (inl e) in (build_all-AllAt ps h, f.0, f.1)
