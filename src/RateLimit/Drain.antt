-- ===== src/RateLimit/Drain.antt =====
-- The time that the limiter announces is the one at which it would grant.
use native.Mathlib.Nat.{suc-mul}
use omnillm.Prelude.{
  if_true, ℕ, suc, ◌+◌, ◌*◌, ◌≤◌, ◌≡◌, ◌≢◌, refl, List, [], ◌∷◌, arith, length, drop, All, leb,
  ◌==◌, ap, subst, sym, ◌∙◌, ◌&&◌, some, true,
}
use omnillm.RateLimit.Defs.{
  RateLimiter, required_interval, Round, admitted, notify, wait_round, round_at, next_availability,
  reservation_index, reservation_index_from,
}

-- Each of these reservations takes a round at its time: `t`, and then one interval later each.
unfoldable pub rounds_at : RateLimiter → ℕ → List ℕ → List Round × RateLimiter
rounds_at rl t [] = ([], rl)
rounds_at rl t (res ∷ rest) =
    let w = wait_round rl t res in
    let more = rounds_at w.1 (t + required_interval rl.interval_seconds) rest in
    (w.0 ∷ more.0, more.1)

-- Every round was granted, nothing is queued, and the next grant is one interval after `last`.
unfoldable pub Drained : ℕ → List Round × RateLimiter → Type 0
Drained last (rounds, rl) =
    All (λ r. r ≡ admitted) rounds × (rl.queue ≡ []) × (rl.last_granted ≡ last)

abbrev admit : RateLimiter → ℕ → RateLimiter
admit rl t = record rl { queue = drop 1 rl.queue; last_granted = t; changed = suc rl.changed }

first_index : (res : ℕ) (rest : List ℕ) → reservation_index (res ∷ rest) res ≡ some 0
unfolding reservation_index reservation_index_from
first_index res rest = ground arith

wait_round-first :
    (rl : RateLimiter) (t res : ℕ) (rest : List ℕ)
    → rl.queue ≡ res ∷ rest
    → rl.last_granted + required_interval rl.interval_seconds ≤ t
    → wait_round rl t res ≡ (admitted, admit rl t)
unfolding wait_round round_at notify
wait_round-first rl t res rest e h =
    ap (λ q. round_at rl t (reservation_index q res)) e
    ∙ ap (λ o. round_at rl t o) (first_index res rest)
    ∙ if_true _ _ (lt_leb h)
  where
    lt_leb : {m n : ℕ} → m ≤ n → (0 == 0 && leb m n) ≡ true
    lt_leb h = ground arith

next_slot : (last n interval : ℕ) → last + interval + n * interval ≡ last + suc n * interval
next_slot last n interval = omega (arith, suc-mul n interval)

rounds_at-Drained :
    (queue : List ℕ) (rl : RateLimiter)
    → rl.queue ≡ queue
    → Drained
        (rl.last_granted + length queue * required_interval rl.interval_seconds)
        (rounds_at rl (rl.last_granted + required_interval rl.interval_seconds) queue)
unfolding rounds_at Drained
rounds_at-Drained [] rl e = (tt, e, omega arith)
rounds_at-Drained (res ∷ rest) rl e =
    let interval = required_interval rl.interval_seconds in
    let t = rl.last_granted + interval in
    let (granted, emptied, last) = rounds_at-Drained rest (admit rl t) (ap (drop 1) e) in
    subst
      (λ (w : Round × RateLimiter).
        Drained (rl.last_granted + suc (length rest) * interval)
          (w.0 ∷ (rounds_at w.1 (t + interval) rest).0, (rounds_at w.1 (t + interval) rest).1))
      (sym (wait_round-first rl t res rest e (omega arith)))
      ((refl, granted), emptied, last ∙ next_slot rl.last_granted (length rest) interval)

-- Once a first grant was made: if the waiting calls take their rounds one interval apart, beginning
-- one interval after the last grant, each of them is granted in its round and the queue is empty
-- behind them; and the time that the limiter has announced to a further call is one interval after
-- the last of these grants.
pub next_availability-rounds_at :
    (rl : RateLimiter) (now : ℕ)
    → rl.last_granted ≢ 0
    → Drained
        (rl.last_granted + length rl.queue * required_interval rl.interval_seconds)
        (rounds_at rl (rl.last_granted + required_interval rl.interval_seconds) rl.queue)
      × (next_availability rl (required_interval rl.interval_seconds) now
          ≡ (rounds_at rl
              (rl.last_granted + required_interval rl.interval_seconds)
              rl.queue).1.last_granted
            + required_interval rl.interval_seconds)
unfolding next_availability Drained
next_availability-rounds_at rl now started =
    let (granted, emptied, last) = rounds_at-Drained rl.queue rl refl in
    (
      (granted, emptied, last),
      ground (arith, last, suc-mul (length rl.queue) (required_interval rl.interval_seconds)),
    )
