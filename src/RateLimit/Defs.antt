-- ===== src/RateLimit/Defs.antt =====
-- ratelimit.go: `RateLimiter`, each critical section of its methods as one function. A time counts
-- nanoseconds from Go's zero time, which is 0 here. An interval is short enough that its
-- nanoseconds do not overflow. A reservation is the number of its channel.
use omnillm.Prelude.{
  ℕ, zero, suc, ◌+◌, ◌*◌, ◌-◌, Bool, true, false, not, ◌||◌, ◌&&◌, Option, none, some, List, [],
  ◌∷◌, ◌++◌, length, take, drop, leb, ◌==◌, ℤ, pos, negsuc, if◌then◌else◌,
}

pub record RateLimiter : Type 0 where
  pub interval_seconds : ℤ
  pub wait_on_limit : Bool
  pub last_granted : ℕ
  pub queue : List ℕ
  -- The number of the channel in the field: `make` gives a channel a number that none had before.
  pub changed : ℕ

-- `NewRateLimiter`
unfoldable pub new_rate_limiter : ℤ → Bool → RateLimiter
new_rate_limiter interval wait = record {
  interval_seconds = interval;
  wait_on_limit = wait;
  last_granted = 0;
  queue = [];
  changed = 0;
}

-- `time.Duration(n) * time.Second` for a positive n.
unfoldable pub required_interval : ℤ → ℕ
required_interval (pos n) = n * 1000000000
required_interval (negsuc n) = 0

unfoldable pub is_positive_interval : ℤ → Bool
is_positive_interval (pos zero) = false
is_positive_interval (pos (suc n)) = true
is_positive_interval (negsuc n) = false

-- `reservationIndexLocked`; -1 is `none`.
unfoldable pub reservation_index_from : ℕ → ℕ → List ℕ → Option ℕ
reservation_index_from i target [] = none
reservation_index_from i target (queued ∷ queue) =
    if queued == target then some i else reservation_index_from (suc i) target queue

unfoldable pub reservation_index : List ℕ → ℕ → Option ℕ
unfolding reservation_index_from
reservation_index queue target = reservation_index_from 0 target queue

-- `notifyLocked`
unfoldable pub notify : RateLimiter → RateLimiter
notify rl = record rl { changed = suc rl.changed }

-- `nextAvailabilityLocked`, where `time.Now()` returns `now`.
unfoldable pub next_availability : RateLimiter → ℕ → ℕ → ℕ
next_availability rl interval now =
    if rl.last_granted == 0 then now else rl.last_granted + suc (length rl.queue) * interval

-- `t.Sub(now)`, which may be negative.
unfoldable pub time_sub : ℕ → ℕ → ℤ
time_sub t now = if leb now t then pos (t - now) else negsuc (now - t - 1)

-- How the first critical section of `CheckAndWait` ends: a limiter without an interval, a grant, an
-- error with the time to wait, or a place in the queue with the time to wait.
pub data Verdict : Type 0 where
  unlimited : Verdict
  granted : Verdict
  refused : ℤ → Verdict
  queued : ℤ → Verdict

-- The guard of an immediate grant.
unfoldable pub is_available : RateLimiter → ℕ → ℕ → Bool
is_available rl interval now =
    length rl.queue == 0 && (rl.last_granted == 0 || leb (rl.last_granted + interval) now)

unfoldable pub join : RateLimiter → ℕ → RateLimiter
unfolding notify
join rl res = notify (record rl { queue = rl.queue ++ res ∷ [] })

-- The first critical section of `CheckAndWait`; `res` is the channel that it makes.
unfoldable pub check_and_wait : RateLimiter → ℕ → ℕ → Verdict × RateLimiter
unfolding is_available join next_availability time_sub
check_and_wait rl now res =
    let interval = required_interval rl.interval_seconds in
    let wait = time_sub (next_availability rl interval now) now in
    if not (is_positive_interval rl.interval_seconds)
    then (unlimited, rl)
    else if is_available rl interval now
    then (granted, record rl { last_granted = now })
    else if not rl.wait_on_limit
    then (refused wait, rl)
    else (queued wait, join rl res)

-- How a round of the loop of `CheckAndWait` ends: the reservation is gone, it is granted, or the
-- call sleeps for at most that time or until the channel of that number is closed.
pub data Round : Type 0 where
  gone : Round
  admitted : Round
  sleep : ℕ → ℕ → Round

-- A round, by the position of the reservation.
unfoldable pub round_at : RateLimiter → ℕ → Option ℕ → Round × RateLimiter
unfolding notify
round_at rl now none = (gone, rl)
round_at rl now (some position) =
    let ready_at = rl.last_granted + required_interval rl.interval_seconds in
    if position == 0 && leb ready_at now
    then (admitted, notify (record rl { queue = drop 1 rl.queue; last_granted = now }))
    else (sleep (ready_at - now) rl.changed, rl)

unfoldable pub wait_round : RateLimiter → ℕ → ℕ → Round × RateLimiter
unfolding round_at
wait_round rl now res = round_at rl now (reservation_index rl.queue res)

-- `cancelReservation`, by the position of the reservation.
unfoldable pub cancel_at : RateLimiter → Option ℕ → RateLimiter
unfolding notify
cancel_at rl none = rl
cancel_at rl (some index) =
    notify (record rl { queue = take index rl.queue ++ drop (suc index) rl.queue })

unfoldable pub cancel_reservation : RateLimiter → ℕ → RateLimiter
unfolding cancel_at
cancel_reservation rl target = cancel_at rl (reservation_index rl.queue target)
