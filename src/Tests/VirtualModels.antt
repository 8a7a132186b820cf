-- ===== src/Tests/VirtualModels.antt =====
-- Runs of the load balancer, and its theorems at three upstreams.
use Prim.Native.String.{String}
use omnillm.Prelude.{
  ℕ, ◌+◌, ◌%◌, ◌≡◌, refl, some, none, List, [], ◌∷◌, ◌++◌, Perm, Text, arith, codes, take, drop,
  lookup, text_eq, ℤ, pos, negsuc, front_at,
}
use omnillm.VirtualModels
use omnillm.VirtualModels.Defs.{
  Upstream, LbStrategy, cursor, order_upstreams, select_upstream, migrate_round_robin_cursor,
  order_by, effective_weight, move_to_front,
}

abbrev upstream : String → ℤ → Upstream
upstream name weight = record {
  id = pos 1;
  virtual_model_id = codes "vm";
  provider_id = codes name;
  model_id = codes "m";
  weight = weight;
  priority = pos 0;
  created_at = pos 0;
  updated_at = pos 0;
}

abbrev first : Upstream
first = upstream "a" (pos 3)

abbrev second : Upstream
second = upstream "b" (negsuc 4)

abbrev third : Upstream
third = upstream "c" (pos 2)

abbrev three : List Upstream
three = first ∷ second ∷ third ∷ []

abbrev vm : Text
vm = codes "vm"

abbrev five : ℕ → ℕ
five n = 5

weighted_run :
    (order_upstreams five three LbStrategy.weighted vm []).0 ≡ some (third ∷ first ∷ second ∷ [])
unfolding order_upstreams front_at order_by effective_weight move_to_front
weighted_run = refl

round_robin_run :
    (select_upstream five three LbStrategy.round_robin vm ((vm, 1) ∷ [])).0 ≡ some (some second)
unfolding select_upstream order_upstreams order_by lookup text_eq
round_robin_run = refl

order_upstreams-perm_example :
    (out : List Upstream) × ((order_upstreams five three LbStrategy.weighted vm []).0 ≡ some out)
    × Perm out three
unfolding VirtualModels.weight_sum effective_weight
order_upstreams-perm_example =
    VirtualModels.order_upstreams-perm five three LbStrategy.weighted vm [] (omega arith)

order_upstreams-rotate_example :
    let i = (cursor vm ((vm, 1) ∷ []) + 4) % 3 in
    (order_upstreams five three LbStrategy.round_robin vm
      (VirtualModels.calls 4 three vm ((vm, 1) ∷ []))).0
    ≡ some (drop i three ++ take i three)
order_upstreams-rotate_example =
    VirtualModels.order_upstreams-rotate five 4 first (second ∷ third ∷ []) vm ((vm, 1) ∷ [])

migrate_round_robin_cursor_lem_example :
    let rr = migrate_round_robin_cursor vm (codes "new") ((vm, 2) ∷ []) in
    (lookup (codes "new") rr ≡ some 2)
    × (lookup vm rr ≡ none)
    × (lookup (codes "x") rr ≡ lookup {V = ℕ} (codes "x") ((vm, 2) ∷ []))
unfolding lookup text_eq
migrate_round_robin_cursor_lem_example =
    VirtualModels.migrate_round_robin_cursor_lem vm (codes "new") (codes "x") 2 ((vm, 2) ∷ [])
      (λ e. cc) refl (λ e. cc) (λ e. cc)

order_upstreams-weighted_example :
    (order_upstreams five three LbStrategy.weighted vm []).0 ≡ some (third ∷ first ∷ second ∷ [])
unfolding VirtualModels.weight_sum effective_weight
order_upstreams-weighted_example =
    VirtualModels.order_upstreams-weighted five three vm [] 2 (omega arith) refl (omega arith)
      (omega arith)
