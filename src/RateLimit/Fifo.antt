-- ===== src/RateLimit/Fifo.antt =====
-- The queue of the limiter is first in, first out.
use mathlib.Core.List.{append_assoc}
use omnillm.Prelude.{
  ℕ, zero, suc, sym, ap, ◌∙◌, subst, List, [], ◌∷◌, ◌++◌, take, drop, Option, none, some,
}
use omnillm.RateLimit.Cases.{check_and_wait-cases, wait_round-cases}
use omnillm.RateLimit.Defs.{
  RateLimiter, new_rate_limiter, Verdict, Round, join, notify, cancel_reservation, cancel_at,
}
use omnillm.RateLimit.Runs.{
  System, Reachable, started, checked, polled, cancelled, start, check_step, round_step,
  cancel_step, after_check, after_round,
}

-- The first list is the second with some members left out.
pub data InOrder : List ℕ → List ℕ → Type 0 where
  done : InOrder [] []
  kept : (x : ℕ) {xs ys : List ℕ} → InOrder xs ys → InOrder (x ∷ xs) (x ∷ ys)
  left_out : (y : ℕ) {xs ys : List ℕ} → InOrder xs ys → InOrder xs (y ∷ ys)

InOrder-refl : (xs : List ℕ) → InOrder xs xs
InOrder-refl [] = done
InOrder-refl (x ∷ xs) = kept x (InOrder-refl xs)

InOrder-trans : {xs ys zs : List ℕ} → InOrder xs ys → InOrder ys zs → InOrder xs zs
InOrder-trans p done = p
InOrder-trans p (left_out z q) = left_out z (InOrder-trans p q)
InOrder-trans (kept _ p) (kept x q) = kept x (InOrder-trans p q)
InOrder-trans (left_out _ p) (kept y q) = left_out y (InOrder-trans p q)

InOrder-snoc : {xs ys : List ℕ} (z : ℕ) → InOrder xs ys → InOrder (xs ++ z ∷ []) (ys ++ z ∷ [])
InOrder-snoc z done = kept z done
InOrder-snoc z (kept x p) = kept x (InOrder-snoc z p)
InOrder-snoc z (left_out y p) = left_out y (InOrder-snoc z p)

InOrder-without :
    (ws : List ℕ) (i : ℕ) (q : List ℕ) → InOrder (ws ++ (take i q ++ drop (suc i) q)) (ws ++ q)
InOrder-without (w ∷ ws) i q = kept w (InOrder-without ws i q)
InOrder-without [] i [] = nothing i
  where
    nothing : (i : ℕ) → InOrder (take i [] ++ drop (suc i) []) []
    nothing zero = done
    nothing (suc i) = done
InOrder-without [] zero (x ∷ q) = left_out x (InOrder-refl q)
InOrder-without [] (suc i) (x ∷ q) = kept x (InOrder-without [] i q)

-- The reservations that were granted after a wait, then those that wait, are among those that
-- joined the queue, in the order of joining.
unfoldable pub IsFifo : System → Type 0
IsFifo s = InOrder (s.waited ++ s.limiter.queue) s.joined

check_step-IsFifo : (s : System) (now res : ℕ) → IsFifo s → IsFifo (check_step s now res)
unfolding IsFifo check_step after_check join notify
check_step-IsFifo s now res inv =
    check_and_wait-cases (λ (r : Verdict × RateLimiter). IsFifo (after_check s now res r.0 r.1))
      s.limiter now res inv (λ _ _. inv) (λ _. inv)
      (λ _.
        subst (λ l. InOrder l (s.joined ++ res ∷ []))
          (append_assoc s.waited s.limiter.queue (res ∷ [])) (InOrder-snoc res inv))

round_step-IsFifo : (s : System) (now res : ℕ) → IsFifo s → IsFifo (round_step s now res)
unfolding IsFifo round_step after_round notify
round_step-IsFifo s now res inv =
    wait_round-cases (λ (r : Round × RateLimiter). IsFifo (after_round s now res r.0 r.1)) s.limiter
      now res inv
      (λ head _.
        subst (λ l. InOrder l s.joined)
          (ap (λ q. s.waited ++ q) head
            ∙ sym (append_assoc s.waited (res ∷ []) (drop 1 s.limiter.queue)))
          inv)
      (λ _ _. inv)

cancel_at-InOrder :
    (rl : RateLimiter) (o : Option ℕ) (ws : List ℕ)
    → InOrder (ws ++ (cancel_at rl o).queue) (ws ++ rl.queue)
unfolding cancel_at notify
cancel_at-InOrder rl none ws = InOrder-refl (ws ++ rl.queue)
cancel_at-InOrder rl (some i) ws = InOrder-without ws i rl.queue

cancel_step-IsFifo : (s : System) (now res : ℕ) → IsFifo s → IsFifo (cancel_step s now res)
unfolding IsFifo cancel_step cancel_reservation
cancel_step-IsFifo s now res inv = InOrder-trans (cancel_at-InOrder s.limiter _ s.waited) inv

-- However the calls interleave, those that were granted after a wait, followed by those that still
-- wait, are the ones that joined the queue, in the order of joining, with some left out.
pub Reachable-IsFifo : {s : System} → Reachable s → IsFifo s
unfolding IsFifo start new_rate_limiter
Reachable-IsFifo (started interval wait now pos) = done
Reachable-IsFifo (checked {s} now res later r) = check_step-IsFifo s now res (Reachable-IsFifo r)
Reachable-IsFifo (polled {s} now res later r) = round_step-IsFifo s now res (Reachable-IsFifo r)
Reachable-IsFifo (cancelled {s} now res later r) = cancel_step-IsFifo s now res (Reachable-IsFifo r)
