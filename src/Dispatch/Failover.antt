-- ===== src/Dispatch/Failover.antt =====
-- `TryAttempts` as a run of the machine of Machine.antt, and what its fallbacks do.
use omnillm.Prelude.{
  Bool, true, false, not, ◌&&◌, ◌≡◌, refl, sym, ap, subst, ◌∙◌, Option, none, some, List, [], ◌∷◌,
  All, inl, inr, Bool-cases, Option-cases, arith,
}
use omnillm.Dispatch.Defs.{
  Heap, Request, PreparedCandidate, Attempt, unsupported, failed, PrepareError, request_is_nil,
  resolve_is_nil, resolve_error, Result, ok, err,
}
use omnillm.Dispatch.Executor.{Executor}
use omnillm.Dispatch.Prepare.{Services, prepare_candidates}
use omnillm.Dispatch.Attempts.{
  HandleError, failure, abort, TryError, handler, prepare, model_not_found, is_unsupported,
  Handlers, Inner, returned, through, after_handle, try_candidates, after_inner, after_prepare,
  try_from, try_attempts, call_on_empty, call_on_error,
}
use omnillm.Dispatch.Machine.{
  Config, attempting, calling, finished, IsDue, told_empty, told_error, out_of_attempts,
  skips_fallback, finds_unsupported, finds_error, finds_none, finds_candidates, succeeds, aborts,
  fails_over, out_of_candidates, Runs, stays, goes,
}

-- The first attempt is never passed over.
never_skipped : (only : Bool) → (only && not true) ≡ false
never_skipped true = refl
never_skipped false = refl

module _ {B W X : Type 0} (hs : Handlers B W X) where
  call_on_empty-told : (a : Attempt) (w : W) → call_on_empty hs a w ≡ told_empty hs hs.on_empty a w
  unfolding call_on_empty
  call_on_empty-told a w = elim (Option-cases hs.on_empty) [
    | inl e ↦ rw e refl
    | inr (f, e) ↦ rw e refl
  ]

  call_on_error-told :
      (a : Attempt) (x : PrepareError) (w : W)
      → call_on_error hs a x w ≡ told_error hs hs.on_error a x w
  unfolding call_on_error
  call_on_error-told a x w = elim (Option-cases hs.on_error) [
    | inl e ↦ rw e refl
    | inr (f, e) ↦ rw e refl
  ]

  module _ (e : Executor B) (s : Services B W) (request : Option (Request B)) where
    abbrev Run : Config B W X → Config B W X → Type 0
    Run = Runs hs e s request

    -- Where the machine stands when the inner loop is left.
    abbrev behind : List Attempt → Inner W X → Config B W X
    behind attempts (returned r w h) = finished r w h
    behind attempts (through last w h) = attempting attempts last false w h

    abbrev done : Option (TryError X) × W × Heap → Config B W X
    done (r, w, h) = finished r w h

    after_handle-Runs :
        (p : PreparedCandidate B) (ps : List (PreparedCandidate B)) (attempts : List Attempt)
        (last : Option (TryError X)) (w : W) (h : Heap) (r : Option (HandleError X) × W × Heap)
        → hs.handle p.candidate p.provider_id w h ≡ r
        → ((y : Option (TryError X)) (w' : W) (h' : Heap)
            → Run (calling ps attempts y w' h') (behind attempts (try_candidates hs ps y w' h')))
        → Run
            (calling (p ∷ ps) attempts last w h)
            (behind attempts (after_handle hs (try_candidates hs ps) r))
    unfolding after_handle
    after_handle-Runs p ps attempts last w h (none, w', h') eq k =
        goes _ _ _ (succeeds p ps attempts last w w' h h' eq) (stays _)
    after_handle-Runs p ps attempts last w h (some (abort x), w', h') eq k =
        goes _ _ _ (aborts p ps attempts last w w' h h' x eq) (stays _)
    after_handle-Runs p ps attempts last w h (some (failure x), w', h') eq k =
        goes _ _ _ (fails_over p ps attempts last w w' h h' x eq)
          (k (some (handler (failure x))) w' h')

    try_candidates-Runs :
        (ps : List (PreparedCandidate B)) (attempts : List Attempt) (last : Option (TryError X))
        (w : W) (h : Heap)
        → Run (calling ps attempts last w h) (behind attempts (try_candidates hs ps last w h))
    unfolding try_candidates
    try_candidates-Runs [] attempts last w h =
        goes _ _ _ (out_of_candidates attempts last w h) (stays _)
    try_candidates-Runs (p ∷ ps) attempts last w h =
        after_handle-Runs p ps attempts last w h (hs.handle p.candidate p.provider_id w h) refl
          (try_candidates-Runs ps attempts)

    Runs-trans : (c c' c'' : Config B W X) → Run c c' → Run c' c'' → Run c c''
    Runs-trans _ _ c'' (stays c) q = q
    Runs-trans _ _ c'' (goes c d c' step p) q = goes c d c'' step (Runs-trans d c' c'' p q)

    abbrev RestRuns : List Attempt → Type 0
    RestRuns attempts =
        (last : Option (TryError X)) (pu : Bool) (w : W) (h : Heap)
        → Run (attempting attempts last pu w h)
            (done (try_from hs e s request attempts last pu w h))

    after_inner-Runs :
        (attempts : List Attempt) (i : Inner W X)
        → RestRuns attempts
        → Run (behind attempts i) (done (after_inner hs i (try_from hs e s request attempts)))
    unfolding after_inner
    after_inner-Runs attempts (returned r w h) k = stays _
    after_inner-Runs attempts (through last w h) k = k last false w h

    after_prepare-Runs :
        (a : Attempt) (attempts : List Attempt) (last : Option (TryError X)) (pu : Bool) (w : W)
        (h : Heap) (r : Result PrepareError (List (PreparedCandidate B))) (w' : W) (h' : Heap)
        → IsDue a pu
        → prepare_candidates e s a request w h ≡ (r, w', h')
        → RestRuns attempts
        → Run
            (attempting (a ∷ attempts) last pu w h)
            (done (after_prepare hs a (try_from hs e s request attempts) last r w' h'))
    unfolding after_prepare is_unsupported
    after_prepare-Runs a attempts last pu w h (err (resolve_error unsupported)) w' h' due eq k =
        goes _ _ _ (finds_unsupported a attempts last pu w w' h h' due eq)
          (k (some (prepare (resolve_error unsupported))) true w' h')
    after_prepare-Runs a attempts last pu w h (err request_is_nil) w' h' due eq k =
        rw (call_on_error-told a request_is_nil w')
          (goes _ _ _ (finds_error a attempts last pu w w' h h' request_is_nil due tt eq) (stays _))
    after_prepare-Runs a attempts last pu w h (err resolve_is_nil) w' h' due eq k =
        rw (call_on_error-told a resolve_is_nil w')
          (goes _ _ _ (finds_error a attempts last pu w w' h h' resolve_is_nil due tt eq) (stays _))
    after_prepare-Runs a attempts last pu w h (err (resolve_error (failed x))) w' h' due eq k =
        rw (call_on_error-told a (resolve_error (failed x)) w') (
          goes _ _ _ (finds_error a attempts last pu w w' h h' (resolve_error (failed x)) due tt eq)
            (stays _))
    after_prepare-Runs a attempts last pu w h (ok []) w' h' due eq k =
        rw (call_on_empty-told a w') (
          goes _ _ _ (finds_none a attempts last pu w w' h h' due eq)
            (k (some (model_not_found a.requested_model)) true (told_empty hs hs.on_empty a w') h'))
    after_prepare-Runs a attempts last pu w h (ok (p ∷ ps)) w' h' due eq k =
        goes _ _ _ (finds_candidates a attempts last pu w w' h h' p ps due eq) (
          Runs-trans _ _ _ (try_candidates-Runs (p ∷ ps) attempts last w' h')
            (after_inner-Runs attempts (try_candidates hs (p ∷ ps) last w' h') k))

    IsDue-or_skipped :
        (a : Attempt) (pu : Bool)
        → ((a.only_if_previous_unavailable && not pu) ≡ false → IsDue a pu)
          × ((a.only_if_previous_unavailable && not pu) ≡ true
              → (a.only_if_previous_unavailable ≡ true) × (pu ≡ false))
    IsDue-or_skipped a true = (λ x. inr refl, λ x. ground arith)
    IsDue-or_skipped a false = (λ x. ground arith, λ x. ground arith)

    try_from-Runs : (attempts : List Attempt) → RestRuns attempts
    unfolding try_from
    try_from-Runs [] last pu w h = goes _ _ _ (out_of_attempts last pu w h) (stays _)
    try_from-Runs (a ∷ attempts) last pu w h =
        elim (Bool-cases (a.only_if_previous_unavailable && not pu)) [
          | inl skip ↦
              let (only, available) = (IsDue-or_skipped a pu).1 skip in
              rw skip (
                subst
                  (λ b.
                    Run (attempting (a ∷ attempts) last b w h)
                      (done (try_from hs e s request attempts last b w h)))
                  (sym available)
                  (goes _ _ _ (skips_fallback a attempts last w h only)
                    (try_from-Runs attempts last false w h)))
          | inr run ↦ rw run (
              after_prepare-Runs a attempts last pu w h (prepare_candidates e s a request w h).0 _ _
                ((IsDue-or_skipped a pu).0 run) refl (try_from-Runs attempts))
        ]

    -- The failover loop runs the machine of `Step` to its end, from the first attempt on and with
    -- no error before, and returns what the machine ends with, the state included: a candidate
    -- whose handler succeeds or aborts ends the run; one that fails hands over to the next
    -- candidate, and the last one to the next attempt; an unsupported or unknown model hands over
    -- to the next attempt; any other resolver error ends the run; and a fallback is passed over
    -- exactly if the attempt prepared last had candidates.
    pub try_attempts-Runs :
        (attempts : List Attempt) (w : W) (h : Heap)
        → let (r, w', h') = try_attempts hs e s request attempts w h in
          Runs hs e s request (attempting attempts none true w h) (finished r w' h')
    unfolding try_attempts
    try_attempts-Runs attempts w h = try_from-Runs attempts none true w h

    try_from_skips :
        (attempts : List Attempt) (last_err : Option (TryError X)) (w : W) (h : Heap)
        → All (λ (a : Attempt). a.only_if_previous_unavailable ≡ true) attempts
        → try_from hs e s request attempts last_err false w h ≡ (last_err, w, h)
    unfolding try_from
    try_from_skips [] last_err w h all = refl
    try_from_skips (a ∷ attempts) last_err w h (only, all) =
        rw (ap (λ b. b && not false) only) (try_from_skips attempts last_err w h all)

    after_inner_skips :
        (attempts : List Attempt) (i : Inner W X)
        → All (λ (a : Attempt). a.only_if_previous_unavailable ≡ true) attempts
        → after_inner hs i (try_from hs e s request attempts)
          ≡ after_inner hs i (try_from hs e s request [])
    unfolding after_inner
    after_inner_skips attempts (returned r w h) all = refl
    after_inner_skips attempts (through last_err w h) all =
        try_from_skips attempts last_err w h all ∙ sym (try_from_skips [] last_err w h tt)

    after_prepare_skips :
        (a : Attempt) (attempts : List Attempt) (last_err : Option (TryError X))
        (r : Result PrepareError (List (PreparedCandidate B))) (w : W) (h : Heap)
        {p : PreparedCandidate B} {ps : List (PreparedCandidate B)}
        → All (λ (b : Attempt). b.only_if_previous_unavailable ≡ true) attempts
        → r ≡ ok (p ∷ ps)
        → after_prepare hs a (try_from hs e s request attempts) last_err r w h
          ≡ after_prepare hs a (try_from hs e s request []) last_err r w h
    unfolding after_prepare
    after_prepare_skips a attempts last_err (err x) w h all eq = cc
    after_prepare_skips a attempts last_err (ok []) w h all eq = cc
    after_prepare_skips a attempts last_err (ok (q ∷ qs)) w h all eq =
        after_inner_skips attempts (try_candidates hs (q ∷ qs) last_err w h) all

    -- If the first attempt finds any candidate, the attempts behind it that are marked
    -- `OnlyIfPreviousUnavailable` change nothing: neither the result, nor any state.
    pub try_attempts-skips_fallbacks :
        (a : Attempt) (fallbacks : List Attempt) (w : W) (h : Heap) {p : PreparedCandidate B}
        {ps : List (PreparedCandidate B)}
        → All (λ (b : Attempt). b.only_if_previous_unavailable ≡ true) fallbacks
        → (prepare_candidates e s a request w h).0 ≡ ok (p ∷ ps)
        → try_attempts hs e s request (a ∷ fallbacks) w h ≡ try_attempts hs e s request (a ∷ []) w h
    unfolding try_attempts
    try_attempts-skips_fallbacks a fallbacks w h all found =
        rw (never_skipped a.only_if_previous_unavailable) (
          after_prepare_skips a fallbacks none (prepare_candidates e s a request w h).0 _ _ all
            found)
