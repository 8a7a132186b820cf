-- ===== src/RateLimit/Wakeups.antt =====
-- What a call that sleeps in `CheckAndWait` may miss: the channel that it took under the lock, against
-- the limiter that it saw there.
use omnillm.Prelude.{
  ℕ, suc, ◌<◌, ◌≡◌, ◌≢◌, ◌⊎◌, drop, inl, inr, refl, sym, ◌∙◌, List, [], ◌∷◌, All, Option, none,
  some, arith,
}
use omnillm.RateLimit.Cases.{check_and_wait-cases, wait_round-cases}
use omnillm.RateLimit.Defs.{
  RateLimiter, Verdict, Round, join, notify, cancel_reservation, cancel_at,
}
use omnillm.RateLimit.Runs.{
  System, Reachable, started, checked, polled, cancelled, start, check_step, round_step,
  cancel_step, after_check, after_round,
}

-- The queue was not empty, and the channel was closed since, or it is the one in the field, and then
-- the queue and the time of the last grant are those seen.
abbrev pub IsHeard : RateLimiter → ℕ × RateLimiter → Type 0
IsHeard rl (channel, seen) =
    (seen.queue ≢ [])
    × ((channel < rl.changed)
        ⊎ ((channel ≡ rl.changed)
            × (rl.queue ≡ seen.queue)
            × (rl.last_granted ≡ seen.last_granted)))

unfoldable pub AllHeard : System → Type 0
AllHeard s = All (IsHeard s.limiter) s.asleep

module _ (rl rl' : RateLimiter) where
  IsHeard-notified :
      (xs : List (ℕ × RateLimiter))
      → rl'.changed ≡ suc rl.changed
      → All (IsHeard rl) xs
      → All (IsHeard rl') xs
  IsHeard-notified [] e h = tt
  IsHeard-notified ((ch, seen) ∷ xs) e (h, hs) = (older h, IsHeard-notified xs e hs)
    where
      older : IsHeard rl (ch, seen) → IsHeard rl' (ch, seen)
      older (ne, inl l) = (ne, inl (omega (arith, l, e)))
      older (ne, inr (c, q, g)) = (ne, inl (omega (arith, c, e)))

-- A grant at an empty queue leaves the channel, and the queue as it was seen.
IsHeard-granted :
    (rl : RateLimiter) (now : ℕ) (xs : List (ℕ × RateLimiter))
    → rl.queue ≡ []
    → All (IsHeard rl) xs
    → All (IsHeard (record rl { last_granted = now })) xs
IsHeard-granted rl now [] e h = tt
IsHeard-granted rl now ((ch, seen) ∷ xs) e (h, hs) = (kept h, IsHeard-granted rl now xs e hs)
  where
    kept : IsHeard rl (ch, seen) → IsHeard (record rl { last_granted = now }) (ch, seen)
    kept (ne, inl l) = (ne, inl l)
    kept (ne, inr (c, q, g)) = elim (ne (sym q ∙ e)) [ ]

check_step-AllHeard : (s : System) (now res : ℕ) → AllHeard s → AllHeard (check_step s now res)
unfolding AllHeard check_step after_check join notify
check_step-AllHeard s now res inv =
    check_and_wait-cases (λ (r : Verdict × RateLimiter). AllHeard (after_check s now res r.0 r.1))
      s.limiter now res inv (λ e _. IsHeard-granted s.limiter now s.asleep e inv) (λ _. inv)
      (λ _. IsHeard-notified s.limiter (join s.limiter res) s.asleep refl inv)

-- The limiter behind the grant of a reservation.
abbrev admitted_at : RateLimiter → ℕ → RateLimiter
admitted_at rl now = record rl {
  queue = drop 1 rl.queue;
  last_granted = now;
  changed = suc rl.changed;
}

round_step-AllHeard : (s : System) (now res : ℕ) → AllHeard s → AllHeard (round_step s now res)
unfolding AllHeard round_step after_round notify
round_step-AllHeard s now res inv =
    wait_round-cases (λ (r : Round × RateLimiter). AllHeard (after_round s now res r.0 r.1))
      s.limiter now res inv
      (λ _ _. IsHeard-notified s.limiter (admitted_at s.limiter now) s.asleep refl inv)
      (λ _ ne. ((ne, inr (refl, refl, refl)), inv))

cancel_at-AllHeard :
    (rl : RateLimiter) (o : Option ℕ) (xs : List (ℕ × RateLimiter))
    → All (IsHeard rl) xs
    → All (IsHeard (cancel_at rl o)) xs
unfolding cancel_at notify
cancel_at-AllHeard rl none xs inv = inv
cancel_at-AllHeard rl (some i) xs inv = IsHeard-notified rl (cancel_at rl (some i)) xs refl inv

cancel_step-AllHeard : (s : System) (now res : ℕ) → AllHeard s → AllHeard (cancel_step s now res)
unfolding AllHeard cancel_step cancel_reservation
cancel_step-AllHeard s now res inv = cancel_at-AllHeard s.limiter _ s.asleep inv

-- No wake-up is lost, however the calls interleave: of every call that went to sleep in its loop,
-- the channel that it holds was closed since, or it is the one in the field `changed`, and then the
-- queue, which was not empty, and the time of the last grant are those that the call saw under the
-- lock.
pub Reachable-AllHeard : {s : System} → Reachable s → AllHeard s
unfolding AllHeard start
Reachable-AllHeard (started interval wait now pos) = tt
Reachable-AllHeard (checked {s} now res later r) =
    check_step-AllHeard s now res (Reachable-AllHeard r)
Reachable-AllHeard (polled {s} now res later r) =
    round_step-AllHeard s now res (Reachable-AllHeard r)
Reachable-AllHeard (cancelled {s} now res later r) =
    cancel_step-AllHeard s now res (Reachable-AllHeard r)
