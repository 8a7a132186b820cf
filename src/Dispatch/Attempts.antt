-- ===== src/Dispatch/Attempts.antt =====
-- attempts.go: the failover loop over attempts and candidates.
use omnillm.Prelude.{
  Bool, true, false, not, ◌&&◌, Option, none, some, List, [], ◌∷◌, Text, if◌then◌else◌,
}
use omnillm.Dispatch.Defs.{
  Heap, Request, Candidate, PreparedCandidate, Attempt, unsupported, failed, PrepareError,
  request_is_nil, resolve_is_nil, resolve_error, Result, ok, err,
}
use omnillm.Dispatch.Executor.{Executor}
use omnillm.Dispatch.Prepare.{Services, prepare_candidates}

-- A handler's error; `abort` marks one that `Abort` wrapped.
pub data HandleError (X : Type 0) : Type 0 where
  failure abort : X → HandleError X

-- The error that `TryAttempts` returns.
pub data TryError (X : Type 0) : Type 0 where
  handler : HandleError X → TryError X
  prepare : PrepareError → TryError X
  model_not_found : Text → TryError X

-- `errors.As(err, &abortErr)`
unfoldable pub is_abort : {X : Type 0} → HandleError X → Bool
is_abort (failure x) = false
is_abort (abort x) = true

-- `errors.Is(err, systemone.ErrUnsupported)`
unfoldable pub is_unsupported : PrepareError → Bool
is_unsupported request_is_nil = false
is_unsupported resolve_is_nil = false
is_unsupported (resolve_error unsupported) = true
is_unsupported (resolve_error (failed x)) = false

-- The callbacks of `TryAttempts`. They act on the state `W` and on the heap; `onEmpty` and
-- `onError` may be nil.
pub record Handlers (B W X : Type 0) : Type 0 where
  pub handle : Candidate B → Text → W → Heap → Option (HandleError X) × W × Heap
  pub on_empty : Option (Attempt → W → W)
  pub on_error : Option (Attempt → PrepareError → W → W)

-- What the inner loop leaves: `TryAttempts` has returned, or the loop is through with `lastErr`.
pub data Inner (W X : Type 0) : Type 0 where
  returned through : Option (TryError X) → W → Heap → Inner W X

module _ {B W X : Type 0} (hs : Handlers B W X) where
  -- What follows one call of the handler; `rest` is the loop over the candidates behind it.
  unfoldable pub after_handle :
      (Option (TryError X) → W → Heap → Inner W X) → Option (HandleError X) × W × Heap → Inner W X
  unfolding is_abort
  after_handle rest (none, w, h) = returned none w h
  after_handle rest (some x, w, h) =
      if is_abort x then returned (some (handler x)) w h else rest (some (handler x)) w h

  -- The loop over the prepared candidates of one attempt, on `lastErr`.
  unfoldable pub try_candidates :
      List (PreparedCandidate B) → Option (TryError X) → W → Heap → Inner W X
  unfolding after_handle
  try_candidates [] last_err w h = through last_err w h
  try_candidates (p ∷ ps) last_err w h =
      after_handle (try_candidates ps) (hs.handle p.candidate p.provider_id w h)

  unfoldable pub call_on_empty : Attempt → W → W
  call_on_empty a w = elim hs.on_empty [ none ↦ w | some f ↦ f a w ]

  unfoldable pub call_on_error : Attempt → PrepareError → W → W
  call_on_error a x w = elim hs.on_error [ none ↦ w | some f ↦ f a x w ]

  abbrev pub Tried : Type 0
  Tried = Option (TryError X) × W × Heap

  abbrev pub Rest : Type 0
  Rest = Option (TryError X) → Bool → W → Heap → Tried

  -- One round of the outer loop; `rest` is the loop over the attempts behind it, on `lastErr` and
  -- `previousUnavailable`.
  unfoldable pub after_inner : Inner W X → Rest → Tried
  after_inner (returned r w h) rest = (r, w, h)
  after_inner (through last_err w h) rest = rest last_err false w h

  unfoldable pub after_prepare :
      Attempt
      → Rest
      → Option (TryError X)
      → Result PrepareError (List (PreparedCandidate B))
      → W
      → Heap
      → Tried
  unfolding try_candidates call_on_empty call_on_error after_inner is_unsupported
  after_prepare a rest last_err (err x) w h =
      if is_unsupported x
      then rest (some (prepare x)) true w h
      else (some (prepare x), call_on_error a x w, h)
  after_prepare a rest last_err (ok []) w h =
      rest (some (model_not_found a.requested_model)) true (call_on_empty a w) h
  after_prepare a rest last_err (ok (p ∷ ps)) w h =
      after_inner (try_candidates (p ∷ ps) last_err w h) rest

  module _ (e : Executor B) (s : Services B W) (request : Option (Request B)) where
    unfoldable pub try_attempt : Attempt → Rest → Rest
    unfolding after_prepare
    try_attempt a rest last_err previous_unavailable w h =
        if a.only_if_previous_unavailable && not previous_unavailable
        then rest last_err previous_unavailable w h
        else (let (prepared, w', h') = prepare_candidates e s a request w h in
            after_prepare a rest last_err prepared w' h')

    unfoldable pub try_from : List Attempt → Rest
    unfolding try_attempt
    try_from [] last_err previous_unavailable w h = (last_err, w, h)
    try_from (a ∷ attempts) last_err previous_unavailable w h =
        try_attempt a (try_from attempts) last_err previous_unavailable w h

    -- `TryAttempts`
    unfoldable pub try_attempts : List Attempt → W → Heap → Tried
    unfolding try_from
    try_attempts attempts w h = try_from attempts none true w h
