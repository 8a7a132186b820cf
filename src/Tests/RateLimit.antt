-- ===== src/Tests/RateLimit.antt =====
-- Runs of the rate limiter, and its theorems at a run of two calls and at a queue of two.
use omnillm.Prelude.{ℕ, map, ◌+◌, ◌*◌, ◌≡◌, refl, true, [], ◌∷◌, arith, pos}
use omnillm.RateLimit.Defs.{
  RateLimiter, check_and_wait, wait_round, reservation_index, reservation_index_from, is_available,
  join, round_at, next_availability, required_interval, is_positive_interval, new_rate_limiter,
}
use omnillm.RateLimit.Drain
use omnillm.RateLimit.Drain.{Drained, rounds_at}
use omnillm.RateLimit.Fifo
use omnillm.RateLimit.Fifo.{IsFifo}
use omnillm.RateLimit.Runs.{
  System, Reachable, started, checked, polled, start, check_step, round_step,
}
use omnillm.RateLimit.Spacing
use omnillm.RateLimit.Wakeups
use omnillm.RateLimit.Wakeups.{AllHeard}
use omnillm.RateLimit.Spacing.{IsSpaced}

-- The first call is granted at once, the second waits for its turn.
abbrev two_calls : System
two_calls = round_step (check_step (check_step (start (pos 1) true 1) 1 0) 2 7) 1000000001 7

two_calls_run : Reachable two_calls
unfolding start check_step check_and_wait is_positive_interval new_rate_limiter required_interval
two_calls_run =
    polled 1000000001 7 (omega arith)
      (checked 2 7 (omega arith) (checked 1 0 (omega arith) (started (pos 1) true 1 (omega arith))))

two_calls_grants : two_calls.grants ≡ 1000000001 ∷ 1 ∷ []
unfolding round_step check_step check_and_wait wait_round reservation_index reservation_index_from
    is_available join round_at is_positive_interval start new_rate_limiter required_interval
two_calls_grants = refl

abbrev two_waiting : RateLimiter
two_waiting = record {
  interval_seconds = pos 1;
  wait_on_limit = true;
  last_granted = 5;
  queue = 8 ∷ 9 ∷ [];
  changed = 3;
}

Reachable-IsSpaced_example : IsSpaced two_calls
Reachable-IsSpaced_example = Spacing.Reachable-IsSpaced two_calls_run

Reachable-IsFifo_example : IsFifo two_calls
Reachable-IsFifo_example = Fifo.Reachable-IsFifo two_calls_run

-- A call that polls too early goes to sleep, and a later one joins behind it.
abbrev one_asleep : System
one_asleep =
    check_step (round_step (check_step (check_step (start (pos 1) true 1) 1 0) 2 7) 3 7) 4 8

one_asleep_run : Reachable one_asleep
unfolding start check_step check_and_wait is_positive_interval new_rate_limiter required_interval
    round_step wait_round reservation_index reservation_index_from is_available join round_at
one_asleep_run = checked 4 8 (omega arith) (
    polled 3 7 (omega arith) (
      checked 2 7 (omega arith) (checked 1 0 (omega arith) (started (pos 1) true 1 (omega arith)))))

one_asleep_channels : map (λ (x : ℕ × RateLimiter). x.0) one_asleep.asleep ≡ 1 ∷ []
unfolding round_step check_step check_and_wait wait_round reservation_index reservation_index_from
    is_available join round_at is_positive_interval start new_rate_limiter required_interval
one_asleep_channels = refl

Reachable-AllHeard_example : AllHeard one_asleep
Reachable-AllHeard_example = Wakeups.Reachable-AllHeard one_asleep_run

next_availability-rounds_at_example :
    Drained
      (5 + 2 * required_interval (pos 1))
      (rounds_at two_waiting (5 + required_interval (pos 1)) (8 ∷ 9 ∷ []))
    × (next_availability two_waiting (required_interval (pos 1)) 6
        ≡ (rounds_at two_waiting (5 + required_interval (pos 1)) (8 ∷ 9 ∷ [])).1.last_granted
          + required_interval (pos 1))
next_availability-rounds_at_example = Drain.next_availability-rounds_at two_waiting 6 (λ e. cc)
