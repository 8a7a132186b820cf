-- ===== src/Prelude/Indices.antt =====
-- Go maps and sets keyed by numbers, as association lists and lists.
use Prim.Native.Nat.{ℕ, ◌≤◌, ◌<◌}
use mathlib.Core.Path.{◌≡◌, refl}
use mathlib.Core.Bool.{Bool, true, false, ◌||◌}
use mathlib.Core.List.{List, [], ◌∷◌}
use mathlib.Core.Option.{Option, none, some}
use native.Mathlib.Omega.{arith}
use omnillm.Prelude.Tests.{◌==◌, if◌then◌else◌, is_some}
use omnillm.Prelude.Lists.{length}

unfoldable pub index_member : ℕ → List ℕ → Bool
index_member i [] = false
index_member i (j ∷ js) = j == i || index_member i js

unfoldable pub index_remove : ℕ → List ℕ → List ℕ
index_remove i [] = []
index_remove i (j ∷ js) = let rest = index_remove i js in if j == i then rest else j ∷ rest

module _ {ℓ} {V : Type ℓ} where
  -- `m[i]`
  unfoldable pub index_lookup : ℕ → List (ℕ × V) → Option V
  index_lookup i [] = none
  index_lookup i ((j, v) ∷ m) = if j == i then some v else index_lookup i m

  -- `m[i] = v`
  unfoldable pub index_insert : ℕ → V → List (ℕ × V) → List (ℕ × V)
  index_insert i v [] = (i, v) ∷ []
  index_insert i v ((j, w) ∷ m) = if j == i then (i, v) ∷ m else (j, w) ∷ index_insert i v m

  -- `delete(m, i)`
  unfoldable pub index_delete : ℕ → List (ℕ × V) → List (ℕ × V)
  index_delete i [] = []
  index_delete i ((j, w) ∷ m) =
      let rest = index_delete i m in if j == i then rest else (j, w) ∷ rest

  pub index_lookup-index_insert :
      (j i : ℕ) (v : V) (m : List (ℕ × V))
      → index_lookup i (index_insert j v m) ≡ (if j == i then some v else index_lookup i m)
  unfolding index_lookup index_insert
  index_lookup-index_insert j i v [] = refl
  index_lookup-index_insert j i v ((k, w) ∷ m) = ground (arith, index_lookup-index_insert j i v m)

  pub index_lookup-index_delete :
      (j i : ℕ) (m : List (ℕ × V))
      → index_lookup i (index_delete j m) ≡ (if j == i then none else index_lookup i m)
  unfolding index_lookup index_delete
  index_lookup-index_delete j i [] = ground arith
  index_lookup-index_delete j i ((k, w) ∷ m) = ground (arith, index_lookup-index_delete j i m)

  pub length-index_delete-le : (i : ℕ) (m : List (ℕ × V)) → length (index_delete i m) ≤ length m
  unfolding index_delete
  length-index_delete-le i [] = omega arith
  length-index_delete-le i ((j, w) ∷ m) = ground (arith, length-index_delete-le i m)

  pub length-index_delete-lt :
      (i : ℕ) (m : List (ℕ × V))
      → is_some (index_lookup i m) ≡ true
      → length (index_delete i m) < length m
  unfolding index_delete index_lookup
  length-index_delete-lt i [] h = cc
  length-index_delete-lt i ((j, w) ∷ m) h =
      ground (arith, length-index_delete-le i m, length-index_delete-lt i m)
