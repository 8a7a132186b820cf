-- ===== src/RateLimit/Spacing.antt =====
-- Grants of the limiter are spaced by its interval.
use omnillm.Prelude.{
  ℕ, ◌+◌, ◌≤◌, ◌<◌, ◌≡◌, ◌⊎◌, inr, refl, List, [], ◌∷◌, arith, Option, none, some,
}
use omnillm.RateLimit.Cases.{check_and_wait-cases, wait_round-cases}
use omnillm.RateLimit.Defs.{
  RateLimiter, new_rate_limiter, required_interval, Verdict, Round, join, notify,
  cancel_reservation, cancel_at,
}
use omnillm.RateLimit.Runs.{
  System, Reachable, started, checked, polled, cancelled, start, check_step, round_step,
  cancel_step, after_check, after_round,
}

-- The times from `t` back are at least the interval apart.
unfoldable pub Spaced : ℕ → ℕ → List ℕ → Type 0
Spaced interval t [] = Unit
Spaced interval t (u ∷ ts) = (u + interval ≤ t) × Spaced interval u ts

-- The grants, spaced, the last of them the one that the limiter remembers.
unfoldable pub SpacedGrants : ℕ → ℕ → List ℕ → Type 0
unfolding Spaced
SpacedGrants interval last [] = last ≡ 0
SpacedGrants interval last (t ∷ ts) = (last ≡ t) × (0 < t) × Spaced interval t ts

unfoldable pub IsSpaced : System → Type 0
unfolding SpacedGrants
IsSpaced s =
    (0 < s.clock)
    × SpacedGrants (required_interval s.limiter.interval_seconds) s.limiter.last_granted s.grants

grant-SpacedGrants :
    (interval last now : ℕ) (ts : List ℕ)
    → 0 < now
    → (last ≡ 0) ⊎ (last + interval ≤ now)
    → SpacedGrants interval last ts
    → SpacedGrants interval now (now ∷ ts)
unfolding SpacedGrants Spaced
grant-SpacedGrants interval last now [] pos h inv = (refl, pos, tt)
grant-SpacedGrants interval last now (t ∷ ts) pos h (e, tpos, rest) =
    (refl, pos, (ground arith, rest))

check_step-IsSpaced :
    (s : System) (now res : ℕ) → s.clock ≤ now → IsSpaced s → IsSpaced (check_step s now res)
unfolding IsSpaced check_step after_check join notify
check_step-IsSpaced s now res later (pos, inv) =
    let pos' : 0 < now = omega (arith, pos, later) in
    check_and_wait-cases (λ (r : Verdict × RateLimiter). IsSpaced (after_check s now res r.0 r.1))
      s.limiter now res (pos', inv)
      (λ _ h. (pos', grant-SpacedGrants _ s.limiter.last_granted now s.grants pos' h inv))
      (λ _. (pos', inv)) (λ _. (pos', inv))

round_step-IsSpaced :
    (s : System) (now res : ℕ) → s.clock ≤ now → IsSpaced s → IsSpaced (round_step s now res)
unfolding IsSpaced round_step after_round notify
round_step-IsSpaced s now res later (pos, inv) =
    let pos' : 0 < now = omega (arith, pos, later) in
    wait_round-cases (λ (r : Round × RateLimiter). IsSpaced (after_round s now res r.0 r.1))
      s.limiter now res (pos', inv)
      (λ _ h. (pos', grant-SpacedGrants _ s.limiter.last_granted now s.grants pos' (inr h) inv))
      (λ _ _. (pos', inv))

cancel_at-SpacedGrants :
    (rl : RateLimiter) (o : Option ℕ) (ts : List ℕ)
    → SpacedGrants (required_interval rl.interval_seconds) rl.last_granted ts
    → SpacedGrants
        (required_interval (cancel_at rl o).interval_seconds)
        (cancel_at rl o).last_granted
        ts
unfolding cancel_at notify
cancel_at-SpacedGrants rl none ts inv = inv
cancel_at-SpacedGrants rl (some i) ts inv = inv

cancel_step-IsSpaced :
    (s : System) (now res : ℕ) → s.clock ≤ now → IsSpaced s → IsSpaced (cancel_step s now res)
unfolding IsSpaced cancel_step cancel_reservation
cancel_step-IsSpaced s now res later (pos, inv) =
    (omega (arith, pos, later), cancel_at-SpacedGrants s.limiter _ s.grants inv)

-- However the calls of several goroutines interleave, waiting and cancelling ones too, two
-- successive grants of the limiter are at least its interval apart, and it remembers the last.
pub Reachable-IsSpaced : {s : System} → Reachable s → IsSpaced s
unfolding IsSpaced SpacedGrants start new_rate_limiter
Reachable-IsSpaced (started interval wait now pos) = (pos, refl)
Reachable-IsSpaced (checked {s} now res later r) =
    check_step-IsSpaced s now res later (Reachable-IsSpaced r)
Reachable-IsSpaced (polled {s} now res later r) =
    round_step-IsSpaced s now res later (Reachable-IsSpaced r)
Reachable-IsSpaced (cancelled {s} now res later r) =
    cancel_step-IsSpaced s now res later (Reachable-IsSpaced r)
