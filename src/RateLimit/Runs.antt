-- ===== src/RateLimit/Runs.antt =====
-- The runs of a limiter: calls of several goroutines, one critical section after another, at times
-- that do not decrease.
use omnillm.Prelude.{ℕ, ◌≤◌, ◌<◌, List, [], ◌∷◌, ◌++◌, ℤ, Bool}
use omnillm.RateLimit.Defs.{
  RateLimiter, new_rate_limiter, Verdict, granted, queued, unlimited, refused, check_and_wait,
  Round, admitted, gone, sleep, wait_round, cancel_reservation,
}

-- The limiter, the time, and what has happened: the times of the grants, the latest first, the
-- reservations that joined the queue and those that were granted, each in order, and of each call
-- that went to sleep the channel that it holds and the limiter as it saw it.
pub record System : Type 0 where
  pub limiter : RateLimiter
  pub clock : ℕ
  pub grants : List ℕ
  pub joined : List ℕ
  pub waited : List ℕ
  pub asleep : List (ℕ × RateLimiter)

unfoldable pub after_check : System → ℕ → ℕ → Verdict → RateLimiter → System
after_check s now res unlimited rl = record s { limiter = rl; clock = now }
after_check s now res granted rl = record s { limiter = rl; clock = now; grants = now ∷ s.grants }
after_check s now res (refused w) rl = record s { limiter = rl; clock = now }
after_check s now res (queued w) rl = record s {
  limiter = rl;
  clock = now;
  joined = s.joined ++ res ∷ [];
}

unfoldable pub after_round : System → ℕ → ℕ → Round → RateLimiter → System
after_round s now res gone rl = record s { limiter = rl; clock = now }
after_round s now res admitted rl = record s {
  limiter = rl;
  clock = now;
  grants = now ∷ s.grants;
  waited = s.waited ++ res ∷ [];
}
after_round s now res (sleep t changed) rl = record s {
  limiter = rl;
  clock = now;
  asleep = (changed, rl) ∷ s.asleep;
}

unfoldable pub check_step : System → ℕ → ℕ → System
unfolding after_check
check_step s now res = let (v, rl) = check_and_wait s.limiter now res in after_check s now res v rl

unfoldable pub round_step : System → ℕ → ℕ → System
unfolding after_round
round_step s now res = let (r, rl) = wait_round s.limiter now res in after_round s now res r rl

unfoldable pub cancel_step : System → ℕ → ℕ → System
cancel_step s now res = record s { limiter = cancel_reservation s.limiter res; clock = now }

unfoldable pub start : ℤ → Bool → ℕ → System
start interval wait now = record {
  limiter = new_rate_limiter interval wait;
  clock = now;
  grants = [];
  joined = [];
  waited = [];
  asleep = [];
}

-- The systems that a new limiter can come to, when its calls are made after Go's zero time.
pub data Reachable : System → Type 0 where
  started : (interval : ℤ) (wait : Bool) (now : ℕ) → 0 < now → Reachable (start interval wait now)
  checked :
      {s : System} (now res : ℕ) → s.clock ≤ now → Reachable s → Reachable (check_step s now res)
  polled :
      {s : System} (now res : ℕ) → s.clock ≤ now → Reachable s → Reachable (round_step s now res)
  cancelled :
      {s : System} (now res : ℕ) → s.clock ≤ now → Reachable s → Reachable (cancel_step s now res)
