-- ===== src/VirtualModels/Permutation.antt =====
-- Every strategy returns all upstreams, each as often as it was given.
use mathlib.Core.List.Perm
use native.Mathlib.Nat.{zero-add}
use omnillm.Prelude.{
  ℕ, ◌+◌, ◌-◌, ◌^◌, ◌%◌, ◌<◌, ◌≡◌, ◌∙◌, refl, inl, inr, ◌||◌, Option, some, List, [], ◌∷◌, Perm,
  arith, Text, length, leb, ◌==◌, drop-append-take-perm, front_at-perm, Bool-cases, Option-cases, ℤ,
  pos, negsuc, zero, suc, true,
}
use omnillm.VirtualModels.Defs.{
  Upstream, LbStrategy, round_robin, random, priority, weighted, other, RrState, move_to_front,
  effective_weight, total_weight, weighted_index, draw_weighted, is_positive, order_by,
  order_upstreams,
}

-- The sum of the weights that the draw uses, without the wrap-around.
unfoldable pub weight_sum : List Upstream → ℕ
weight_sum [] = 0
weight_sum (u ∷ us) = effective_weight u.weight + weight_sum us

pub total_weight_exact :
    (us : List Upstream) (total : ℕ)
    → total + weight_sum us < 2 ^ 63
    → total_weight total us ≡ total + weight_sum us
unfolding weight_sum total_weight
total_weight_exact [] total h = omega arith
total_weight_exact (u ∷ us) total h =
    ground (arith, total_weight_exact us ((total + effective_weight u.weight) % 2 ^ 64))

pub effective_weight_pos : (w : ℤ) → 0 < effective_weight w
unfolding effective_weight
effective_weight_pos (pos zero) = omega arith
effective_weight_pos (pos (suc n)) = omega arith
effective_weight_pos (negsuc n) = omega arith

-- With no overflow the argument of `rand.IntN` is positive.
pub total_weight_positive :
    (u : Upstream) (us : List Upstream)
    → weight_sum (u ∷ us) < 2 ^ 63
    → (total_weight 0 (u ∷ us) ≡ weight_sum (u ∷ us)) × (is_positive (weight_sum (u ∷ us)) ≡ true)
unfolding is_positive weight_sum
total_weight_positive u us h = (
  total_weight_exact (u ∷ us) 0 (omega arith) ∙ zero-add (weight_sum (u ∷ us)),
  ground (arith, effective_weight_pos u.weight),
)

move_to_front-perm : (us : List Upstream) (idx : ℕ) → Perm (move_to_front us idx) us
unfolding move_to_front
move_to_front-perm us idx = elim (Bool-cases (idx == 0 || leb (length us) idx)) [
  | inl h ↦ rw h (Perm.refl us)
  | inr h ↦ rw h (front_at-perm idx us)
]

draw_weighted-perm : (roll : ℕ) (us : List Upstream) → Perm (draw_weighted roll us) us
unfolding draw_weighted
draw_weighted-perm roll us = elim (Option-cases (weighted_index 0 roll us)) [
  | inl h ↦ rw (h, draw_weighted) (move_to_front-perm us (length us - 1))
  | inr (i, h) ↦ rw (h, draw_weighted) (move_to_front-perm us i)
]

abbrev Ordered : List Upstream → Option (List Upstream) → Type 0
Ordered us o = (out : List Upstream) × (o ≡ some out) × Perm out us

order_by-Ordered :
    (strategy : LbStrategy) (intn : ℕ → ℕ) (u : Upstream) (us : List Upstream) (vm : Text)
    (rr : RrState)
    → weight_sum (u ∷ us) < 2 ^ 63
    → Ordered (u ∷ us) (order_by strategy intn (u ∷ us) vm rr).0
unfolding order_by
order_by-Ordered round_robin intn u us vm rr h = (_, refl, drop-append-take-perm _ (u ∷ us))
order_by-Ordered random intn u us vm rr h = (_, refl, move_to_front-perm (u ∷ us) _)
order_by-Ordered priority intn u us vm rr h = (u ∷ us, refl, Perm.refl (u ∷ us))
order_by-Ordered weighted intn u us vm rr h =
    let (exact, positive) = total_weight_positive u us h in
    rw (exact, positive) (_, refl, draw_weighted-perm _ (u ∷ us))
order_by-Ordered (other name) intn u us vm rr h = (u ∷ us, refl, Perm.refl (u ∷ us))

-- Under every strategy, if the weights (each counted as at least 1) sum to less than 2 ^ 63, the
-- call returns, whatever random number is drawn, and what it returns is a permutation of the
-- upstreams that it was given.
pub order_upstreams-perm :
    (intn : ℕ → ℕ) (us : List Upstream) (strategy : LbStrategy) (vm : Text) (rr : RrState)
    → weight_sum us < 2 ^ 63
    → (out : List Upstream) × ((order_upstreams intn us strategy vm rr).0 ≡ some out) × Perm out us
unfolding order_upstreams
order_upstreams-perm intn [] strategy vm rr h = ([], refl, Perm.refl [])
order_upstreams-perm intn (u ∷ us) strategy vm rr h = order_by-Ordered strategy intn u us vm rr h
