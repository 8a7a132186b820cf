-- ===== src/Dispatch/Machine.antt =====
-- TryAttempts as a machine: the steps that attempts.go documents, each about one call, and the
-- failover loop as a run of it.
use omnillm.Prelude.{Bool, true, false, ◌≡◌, ◌⊎◌, Option, none, some, List, [], ◌∷◌}
use omnillm.Dispatch.Defs.{
  Heap, Request, PreparedCandidate, Attempt, unsupported, failed, PrepareError, request_is_nil,
  resolve_is_nil, resolve_error, ok, err,
}
use omnillm.Dispatch.Executor.{Executor}
use omnillm.Dispatch.Prepare.{Services, prepare_candidates}
use omnillm.Dispatch.Attempts.{
  failure, abort, TryError, handler, prepare, model_not_found, Handlers,
}

-- Where the dispatcher stands: before the attempts that are left, with the last error and whether
-- the attempt before was unavailable; before the candidates that are left of an attempt, with the
-- attempts behind it; or at its end.
pub data Config (B W X : Type 0) : Type 0 where
  attempting : List Attempt → Option (TryError X) → Bool → W → Heap → Config B W X
  calling :
      List (PreparedCandidate B) → List Attempt → Option (TryError X) → W → Heap → Config B W X
  finished : Option (TryError X) → W → Heap → Config B W X

-- An attempt is due unless it is a fallback and the one prepared last had candidates.
abbrev pub IsDue : Attempt → Bool → Type 0
IsDue a previous_unavailable =
    (a.only_if_previous_unavailable ≡ false) ⊎ (previous_unavailable ≡ true)

-- An error other than that the resolver does not support the model.
abbrev pub IsFatal : PrepareError → Type 0
IsFatal request_is_nil = Unit
IsFatal resolve_is_nil = Unit
IsFatal (resolve_error unsupported) = ⊥
IsFatal (resolve_error (failed x)) = Unit

module _ {B W X : Type 0} (hs : Handlers B W X) where
  -- The state behind a callback, if there is one.
  abbrev pub told_empty : Option (Attempt → W → W) → Attempt → W → W
  told_empty none a w = w
  told_empty (some f) a w = f a w

  abbrev pub told_error : Option (Attempt → PrepareError → W → W) → Attempt → PrepareError → W → W
  told_error none a x w = w
  told_error (some f) a x w = f a x w

  module _ (e : Executor B) (s : Services B W) (request : Option (Request B)) where
    -- One preparation of an attempt, or one call of the handler.
    pub data Step : Config B W X → Config B W X → Type 0 where
      out_of_attempts :
          (last : Option (TryError X)) (pu : Bool) (w : W) (h : Heap)
          → Step (attempting [] last pu w h) (finished last w h)
      skips_fallback :
          (a : Attempt) (attempts : List Attempt) (last : Option (TryError X)) (w : W) (h : Heap)
          → a.only_if_previous_unavailable ≡ true
          → Step (attempting (a ∷ attempts) last false w h) (attempting attempts last false w h)
      finds_unsupported :
          (a : Attempt) (attempts : List Attempt) (last : Option (TryError X)) (pu : Bool)
          (w w' : W) (h h' : Heap)
          → IsDue a pu
          → prepare_candidates e s a request w h ≡ (err (resolve_error unsupported), w', h')
          → Step
              (attempting (a ∷ attempts) last pu w h)
              (attempting attempts (some (prepare (resolve_error unsupported))) true w' h')
      finds_error :
          (a : Attempt) (attempts : List Attempt) (last : Option (TryError X)) (pu : Bool)
          (w w' : W) (h h' : Heap) (x : PrepareError)
          → IsDue a pu
          → IsFatal x
          → prepare_candidates e s a request w h ≡ (err x, w', h')
          → Step
              (attempting (a ∷ attempts) last pu w h)
              (finished (some (prepare x)) (told_error hs.on_error a x w') h')
      finds_none :
          (a : Attempt) (attempts : List Attempt) (last : Option (TryError X)) (pu : Bool)
          (w w' : W) (h h' : Heap)
          → IsDue a pu
          → prepare_candidates e s a request w h ≡ (ok [], w', h')
          → Step (attempting (a ∷ attempts) last pu w h) (
              attempting attempts
                (some (model_not_found a.requested_model))
                true
                (told_empty hs.on_empty a w')
                h')
      finds_candidates :
          (a : Attempt) (attempts : List Attempt) (last : Option (TryError X)) (pu : Bool)
          (w w' : W) (h h' : Heap) (p : PreparedCandidate B) (ps : List (PreparedCandidate B))
          → IsDue a pu
          → prepare_candidates e s a request w h ≡ (ok (p ∷ ps), w', h')
          → Step (attempting (a ∷ attempts) last pu w h) (calling (p ∷ ps) attempts last w' h')
      succeeds :
          (p : PreparedCandidate B) (ps : List (PreparedCandidate B)) (attempts : List Attempt)
          (last : Option (TryError X)) (w w' : W) (h h' : Heap)
          → hs.handle p.candidate p.provider_id w h ≡ (none, w', h')
          → Step (calling (p ∷ ps) attempts last w h) (finished none w' h')
      aborts :
          (p : PreparedCandidate B) (ps : List (PreparedCandidate B)) (attempts : List Attempt)
          (last : Option (TryError X)) (w w' : W) (h h' : Heap) (x : X)
          → hs.handle p.candidate p.provider_id w h ≡ (some (abort x), w', h')
          → Step (calling (p ∷ ps) attempts last w h) (finished (some (handler (abort x))) w' h')
      fails_over :
          (p : PreparedCandidate B) (ps : List (PreparedCandidate B)) (attempts : List Attempt)
          (last : Option (TryError X)) (w w' : W) (h h' : Heap) (x : X)
          → hs.handle p.candidate p.provider_id w h ≡ (some (failure x), w', h')
          → Step
              (calling (p ∷ ps) attempts last w h)
              (calling ps attempts (some (handler (failure x))) w' h')
      out_of_candidates :
          (attempts : List Attempt) (last : Option (TryError X)) (w : W) (h : Heap)
          → Step (calling [] attempts last w h) (attempting attempts last false w h)

    -- A run: no step, or a step and a run from where it leads.
    pub data Runs : Config B W X → Config B W X → Type 0 where
      stays : (c : Config B W X) → Runs c c
      goes : (c c' c'' : Config B W X) → Step c c' → Runs c' c'' → Runs c c''
