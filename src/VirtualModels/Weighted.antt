-- ===== src/VirtualModels/Weighted.antt =====
-- The draw of the weighted strategy: each upstream owns an interval of the rolls as long as its
-- weight.
use omnillm.Prelude.{
  ℕ, zero, suc, ◌+◌, ◌-◌, ◌^◌, ◌≤◌, ◌<◌, ◌≡◌, some, List, [], ◌∷◌, ◌++◌, arith, Text, length, take,
  drop, get_elem?, front_at-some,
}
use omnillm.VirtualModels.Defs.{
  Upstream, weighted, RrState, effective_weight, weighted_index, draw_weighted, move_to_front,
  order_by, order_upstreams,
}
use omnillm.VirtualModels.Permutation.{weight_sum, total_weight_positive}

-- The loop from counter `i` finds the upstream at `j` exactly when the roll lies in its interval.
weighted_index_from :
    (us : List Upstream) (i j roll : ℕ) {u : Upstream}
    → get_elem? us j ≡ some u
    → weight_sum (take j us) ≤ roll
    → roll < weight_sum (take j us) + effective_weight u.weight
    → weighted_index i roll us ≡ some (i + j)
unfolding weighted_index weight_sum
weighted_index_from [] i j roll e l h = cc
weighted_index_from (v ∷ us) i zero roll e l h = ground arith
weighted_index_from (v ∷ us) i (suc j) roll {u} e l h =
    ground (arith, weighted_index_from us (suc i) j (roll - effective_weight v.weight) {u = u} e)

get_elem?-lt {ℓ} :
    {A : Type ℓ} (us : List A) (j : ℕ) {u : A} → get_elem? us j ≡ some u → j < length us
get_elem?-lt [] j e = cc
get_elem?-lt (v ∷ us) zero e = omega arith
get_elem?-lt (v ∷ us) (suc j) e = omega (arith, get_elem?-lt us j e)

move_to_front-some :
    (us : List Upstream) (j : ℕ) {u : Upstream}
    → get_elem? us j ≡ some u
    → move_to_front us j ≡ u ∷ (take j us ++ drop (suc j) us)
unfolding move_to_front
move_to_front-some [] j e = cc
move_to_front-some (v ∷ us) zero e = ground arith
move_to_front-some (v ∷ us) (suc j) e =
    ground (arith, get_elem?-lt us j e, front_at-some (suc j) (v ∷ us) e)

-- The weighted strategy: if the weights (each at least 1) sum to less than 2 ^ 63 and the number
-- drawn below that sum is among the `weight u` numbers behind the weights of the upstreams before
-- `u`, then `u` goes first and the others keep their order.
pub order_upstreams-weighted :
    (intn : ℕ → ℕ) (us : List Upstream) (vm : Text) (rr : RrState) (j : ℕ) {u : Upstream}
    → weight_sum us < 2 ^ 63
    → get_elem? us j ≡ some u
    → weight_sum (take j us) ≤ intn (weight_sum us)
    → intn (weight_sum us) < weight_sum (take j us) + effective_weight u.weight
    → (order_upstreams intn us weighted vm rr).0 ≡ some (u ∷ (take j us ++ drop (suc j) us))
unfolding order_upstreams order_by draw_weighted
order_upstreams-weighted intn [] vm rr j b e l h = cc
order_upstreams-weighted intn (v ∷ us) vm rr j {u} b e l h =
    let (exact, positive) = total_weight_positive v us b in
    rw (exact, positive)
      (ground (
        arith,
        weighted_index_from (v ∷ us) 0 j (intn (weight_sum (v ∷ us))) {u = u} e l h,
        move_to_front-some (v ∷ us) j {u = u} e,
      ))
