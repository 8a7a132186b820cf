-- ===== src/RateLimit/Cases.antt =====
-- How a critical section of the limiter ends, as a rule for proofs about all of its branches.
use omnillm.Prelude.{
  ℕ, suc, ◌+◌, ◌≤◌, ◌≡◌, ◌≢◌, ◌⊎◌, true, not, ◌&&◌, Option, none, some, List, [], ◌∷◌, arith, drop,
  leb, refl, length, ◌==◌, if_cases, ℤ,
}
use omnillm.RateLimit.Defs.{
  RateLimiter, required_interval, is_positive_interval, reservation_index, reservation_index_from,
  notify, is_available, join, Verdict, unlimited, granted, refused, queued, check_and_wait, Round,
  gone, admitted, sleep, round_at, wait_round,
}

available-cases :
    (rl : RateLimiter) (interval now : ℕ)
    → is_available rl interval now ≡ true
    → (rl.last_granted ≡ 0) ⊎ (rl.last_granted + interval ≤ now)
unfolding is_available
available-cases rl interval now h = ground arith

available-empty :
    (rl : RateLimiter) (interval now : ℕ) → is_available rl interval now ≡ true → rl.queue ≡ []
unfolding is_available
available-empty rl interval now h = empty rl.queue (ground arith)
  where
    empty : (q : List ℕ) → length q ≡ 0 → q ≡ []
    empty [] e = refl
    empty (x ∷ q) e = ground arith

pub check_and_wait-cases {ℓ} :
    (P : Verdict × RateLimiter → Type ℓ) (rl : RateLimiter) (now res : ℕ)
    → P (unlimited, rl)
    → (rl.queue ≡ []
        → (rl.last_granted ≡ 0) ⊎ (rl.last_granted + required_interval rl.interval_seconds ≤ now)
        → P (granted, record rl { last_granted = now }))
    → ((w : ℤ) → P (refused w, rl))
    → ((w : ℤ) → P (queued w, join rl res))
    → P (check_and_wait rl now res)
unfolding check_and_wait
check_and_wait-cases P rl now res u g r q =
    if_cases P (not (is_positive_interval rl.interval_seconds)) _ _ (λ _. u)
      (λ _.
        if_cases P (is_available rl (required_interval rl.interval_seconds) now) _ _
          (λ h. g (available-empty rl _ now h) (available-cases rl _ now h))
          (λ _. if_cases P (not rl.wait_on_limit) _ _ (λ _. r _) (λ _. q _)))

index_from_le :
    (i target p : ℕ) (queue : List ℕ) → reservation_index_from i target queue ≡ some p → i ≤ p
unfolding reservation_index_from
index_from_le i target p [] h = cc
index_from_le i target p (x ∷ queue) h = ground (arith, index_from_le (suc i) target p queue)

head_of :
    (target : ℕ) (queue : List ℕ)
    → reservation_index queue target ≡ some 0
    → queue ≡ target ∷ drop 1 queue
unfolding reservation_index reservation_index_from
head_of target [] h = cc
head_of target (x ∷ queue) h = ground (arith, index_from_le 1 target 0 queue)

absent : (target : ℕ) (queue : List ℕ) → queue ≡ [] → reservation_index queue target ≡ none
unfolding reservation_index reservation_index_from
absent target [] e = refl
absent target (x ∷ queue) e = cc

round_at-cases {ℓ} :
    (P : Round × RateLimiter → Type ℓ) (rl : RateLimiter) (now : ℕ) (o : Option ℕ)
    → P (gone, rl)
    → (o ≡ some 0
        → rl.last_granted + required_interval rl.interval_seconds ≤ now
        → P (admitted, notify (record rl { queue = drop 1 rl.queue; last_granted = now })))
    → ((t : ℕ) → o ≢ none → P (sleep t rl.changed, rl))
    → P (round_at rl now o)
unfolding round_at
round_at-cases P rl now none n a s = n
round_at-cases P rl now (some p) n a s =
    if_cases P (p == 0 && leb (rl.last_granted + required_interval rl.interval_seconds) now) _ _
      (λ h. a (ground arith) (ground arith)) (λ _. s _ (λ e. cc))

pub wait_round-cases {ℓ} :
    (P : Round × RateLimiter → Type ℓ) (rl : RateLimiter) (now res : ℕ)
    → P (gone, rl)
    → (rl.queue ≡ res ∷ drop 1 rl.queue
        → rl.last_granted + required_interval rl.interval_seconds ≤ now
        → P (admitted, notify (record rl { queue = drop 1 rl.queue; last_granted = now })))
    → ((t : ℕ) → rl.queue ≢ [] → P (sleep t rl.changed, rl))
    → P (wait_round rl now res)
unfolding wait_round
wait_round-cases P rl now res n a s =
    round_at-cases P rl now (reservation_index rl.queue res) n (λ h. a (head_of res rl.queue h))
      (λ t ne. s t (λ e. ne (absent res rl.queue e)))
