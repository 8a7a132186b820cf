-- ===== src/VirtualModels/RoundRobin.antt =====
-- The round-robin cursor over a run of calls, and its migration to a new ID.
use native.Mathlib.Nat.{mod-add-mod, add-zero}
use omnillm.Prelude.{
  ℕ, zero, suc, ◌+◌, ◌%◌, ◌≡◌, ◌≢◌, refl, ◌∙◌, ap, some, none, List, [], ◌∷◌, ◌++◌, arith, Text,
  text_eq_iff, text_eq_refl, length, take, drop, lookup, lookup-insert, lookup-delete, insert,
}
use omnillm.VirtualModels.Defs.{
  Upstream, LbStrategy, round_robin, random, priority, weighted, other, RrState, cursor, order_by,
  order_upstreams, migrate_round_robin_cursor,
}

-- The state behind `k` round-robin calls for one virtual model.
unfoldable pub calls : ℕ → List Upstream → Text → RrState → RrState
calls zero us vm rr = rr
calls (suc k) us vm rr = calls k us vm (order_upstreams (λ n. 0) us round_robin vm rr).1

cursor-insert : (vm : Text) (c : ℕ) (rr : RrState) → cursor vm (insert vm c rr) ≡ c
unfolding cursor
cursor-insert vm c rr = ground (arith, lookup-insert vm vm c rr, text_eq_refl vm)

cursor-call :
    (intn : ℕ → ℕ) (u : Upstream) (us : List Upstream) (vm : Text) (rr : RrState)
    → cursor vm (order_upstreams intn (u ∷ us) round_robin vm rr).1
      ≡ cursor vm rr % length (u ∷ us) + 1
unfolding order_upstreams order_by
cursor-call intn u us vm rr = cursor-insert vm _ rr

cursor-calls :
    (k : ℕ) (u : Upstream) (us : List Upstream) (vm : Text) (rr : RrState)
    → cursor vm (calls k (u ∷ us) vm rr) % length (u ∷ us) ≡ (cursor vm rr + k) % length (u ∷ us)
unfolding calls
cursor-calls zero u us vm rr = rw add-zero
cursor-calls (suc k) u us vm rr =
    cursor-calls k u us vm (order_upstreams (λ n. 0) (u ∷ us) round_robin vm rr).1
    ∙ ap (λ c. (c + k) % length (u ∷ us)) (cursor-call (λ n. 0) u us vm rr)
    ∙ ap (λ c. c % length (u ∷ us)) (omega arith)
    ∙ mod-add-mod (cursor vm rr) (length (u ∷ us)) (1 + k)
    ∙ ap (λ c. c % length (u ∷ us)) (omega arith)

-- After `k` round-robin calls for a virtual model with `n` upstreams the next one returns the
-- upstreams rotated by (cursor + k) mod n: the first place passes through all of them in turn.
pub order_upstreams-rotate :
    (intn : ℕ → ℕ) (k : ℕ) (u : Upstream) (us : List Upstream) (vm : Text) (rr : RrState)
    → let i = (cursor vm rr + k) % length (u ∷ us) in
      (order_upstreams intn (u ∷ us) round_robin vm (calls k (u ∷ us) vm rr)).0
      ≡ some (drop i (u ∷ us) ++ take i (u ∷ us))
unfolding order_upstreams order_by
order_upstreams-rotate intn k u us vm rr =
    ap (λ (i : ℕ). some (drop i (u ∷ us) ++ take i (u ∷ us))) (cursor-calls k u us vm rr)

-- A call, whatever its strategy, leaves the cursors of the other virtual models alone.
pub order_upstreams-cursor_ne :
    (intn : ℕ → ℕ) (us : List Upstream) (strategy : LbStrategy) (vm other_vm : Text) (rr : RrState)
    → vm ≢ other_vm
    → cursor other_vm (order_upstreams intn us strategy vm rr).1 ≡ cursor other_vm rr
unfolding order_upstreams order_by cursor
order_upstreams-cursor_ne intn [] strategy vm v rr h = refl
order_upstreams-cursor_ne intn (u ∷ us) round_robin vm v rr h =
    ground (arith, lookup-insert vm v (cursor vm rr % length (u ∷ us) + 1) rr, text_eq_iff vm v)
order_upstreams-cursor_ne intn (u ∷ us) random vm v rr h = refl
order_upstreams-cursor_ne intn (u ∷ us) priority vm v rr h = refl
order_upstreams-cursor_ne intn (u ∷ us) weighted vm v rr h = refl
order_upstreams-cursor_ne intn (u ∷ us) (other name) vm v rr h = refl

-- Renaming a virtual model whose cursor is `c` hands the cursor to the new ID, leaves none under
-- the old one, and keeps those of all other IDs.
pub migrate_round_robin_cursor_lem :
    (old_id new_id vm : Text) (c : ℕ) (rr : RrState)
    → old_id ≢ new_id
    → lookup old_id rr ≡ some c
    → vm ≢ old_id
    → vm ≢ new_id
    → let rr' = migrate_round_robin_cursor old_id new_id rr in
      (lookup new_id rr' ≡ some c) × (lookup old_id rr' ≡ none) × (lookup vm rr' ≡ lookup vm rr)
unfolding migrate_round_robin_cursor
migrate_round_robin_cursor_lem o n v c rr ne h vo vn = ground (
  arith,
  lookup-delete o n (insert n c rr),
  lookup-delete o o (insert n c rr),
  lookup-delete o v (insert n c rr),
  lookup-insert n n c rr,
  lookup-insert n v c rr,
  text_eq_iff o n,
  text_eq_iff o o,
  text_eq_iff o v,
  text_eq_iff n n,
  text_eq_iff n v,
)
