-- ===== src/VirtualModels/Defs.antt =====
-- virtualmodelrouting.go: `OrderUpstreams`, `SelectUpstream`, `moveToFront` and
-- `MigrateRoundRobinCursor`.
use omnillm.Prelude.{
  ℕ, zero, suc, ◌+◌, ◌-◌, ◌%◌, ◌^◌, Bool, ◌||◌, Option, none, some, List, [], ◌∷◌, ◌++◌, ltb, leb,
  ◌==◌, if◌then◌else◌, length, take, drop, front_at, Text, lookup, insert, delete, ℤ, pos, negsuc,
}

pub data LbStrategy : Type 0 where
  round_robin random priority weighted : LbStrategy
  other : Text → LbStrategy

-- `VirtualModelUpstreamRecord`; the two timestamps are Unix times.
pub record Upstream : Type 0 where
  pub id : ℤ
  pub virtual_model_id : Text
  pub provider_id : Text
  pub model_id : Text
  pub weight : ℤ
  pub priority : ℤ
  pub created_at : ℤ
  pub updated_at : ℤ

-- `rrState`, from virtual model IDs to cursors.
abbrev pub RrState : Type 0
RrState = List (Text × ℕ)

-- A missing key of `rrState` reads as 0.
unfoldable pub cursor : Text → RrState → ℕ
cursor vm rr = elim (lookup vm rr) [ none ↦ 0 | some c ↦ c ]

unfoldable pub move_to_front : List Upstream → ℕ → List Upstream
move_to_front upstreams idx =
    if idx == 0 || leb (length upstreams) idx then upstreams else front_at idx upstreams

-- `w := u.Weight; if w < 1 { w = 1 }`
unfoldable pub effective_weight : ℤ → ℕ
effective_weight (pos zero) = 1
effective_weight (pos (suc n)) = suc n
effective_weight (negsuc n) = 1

-- The loop that sums the weights, on 64 bits.
unfoldable pub total_weight : ℕ → List Upstream → ℕ
total_weight total [] = total
total_weight total (u ∷ us) = total_weight ((total + effective_weight u.weight) % 2 ^ 64) us

-- The loop that draws: `roll -= w` goes below 0 exactly when `roll < w`.
unfoldable pub weighted_index : ℕ → ℕ → List Upstream → Option ℕ
weighted_index i roll [] = none
weighted_index i roll (u ∷ us) =
    if ltb roll (effective_weight u.weight)
    then some i
    else weighted_index (suc i) (roll - effective_weight u.weight) us

-- The end of the case `LbStrategyWeighted`, with the fall-through behind the loop.
unfoldable pub draw_weighted : ℕ → List Upstream → List Upstream
unfolding weighted_index
draw_weighted roll ordered = elim (weighted_index 0 roll ordered) [
  | none ↦ move_to_front ordered (length ordered - 1)
  | some i ↦ move_to_front ordered i
]

-- `rand.IntN(n)` panics unless `n > 0`: neither 0 nor a set sign bit.
unfoldable pub is_positive : ℕ → Bool
is_positive n = if n == 0 then Bool.false else ltb n (2 ^ 63)

-- The `switch` of `OrderUpstreams`.
unfoldable pub order_by :
    LbStrategy → (ℕ → ℕ) → List Upstream → Text → RrState → Option (List Upstream) × RrState
unfolding cursor is_positive total_weight draw_weighted
order_by round_robin intn ordered vm rr =
    let idx = cursor vm rr % length ordered in
    (some (drop idx ordered ++ take idx ordered), insert vm (idx + 1) rr)
order_by random intn ordered vm rr = (some (move_to_front ordered (intn (length ordered))), rr)
order_by priority intn ordered vm rr = (some ordered, rr)
order_by weighted intn ordered vm rr =
    let total = total_weight 0 ordered in
    (if is_positive total then some (draw_weighted (intn total) ordered) else none, rr)
order_by (other name) intn ordered vm rr = (some ordered, rr)

unfoldable pub order_upstreams :
    (ℕ → ℕ) → List Upstream → LbStrategy → Text → RrState → Option (List Upstream) × RrState
order_upstreams intn [] strategy vm rr = (some [], rr)
order_upstreams intn (u ∷ us) strategy vm rr = order_by strategy intn (u ∷ us) vm rr

-- `SelectUpstream`: the first in order, `nil` where there is none; a panic is the outer `none`.
unfoldable pub select_upstream :
    (ℕ → ℕ) → List Upstream → LbStrategy → Text → RrState → Option (Option Upstream) × RrState
select_upstream intn upstreams strategy vm rr =
    let (ordered, rr') = order_upstreams intn upstreams strategy vm rr in
    (elim ordered [ none ↦ none | some [] ↦ some none | some (u ∷ us) ↦ some (some u) ], rr')

unfoldable pub migrate_round_robin_cursor : Text → Text → RrState → RrState
migrate_round_robin_cursor old_id new_id rr = elim (lookup old_id rr) [
  | none ↦ rr
  | some c ↦ delete old_id (insert new_id c rr)
]
