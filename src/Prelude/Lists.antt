-- ===== src/Prelude/Lists.antt =====
-- Lists measured and indexed by native numbers, under the library's names.
use Prim.Native.Nat.{ℕ, zero, suc, ◌+◌, ◌-◌}
use mathlib.Core.Path.{◌≡◌, refl, ap, subst}
use mathlib.Core.Logic.{inl, inr}
use mathlib.Core.List.{List, [], ◌∷◌, ◌++◌, Perm, perm_middle, perm_append_comm}
use mathlib.Core.List.Perm
use mathlib.Core.Option.{Option, none, some}
use native.Mathlib.Omega.{arith}
use mathlib.Core.Bool.{Bool, true, false, ◌&&◌}
use omnillm.Prelude.Tests.{Option-cases, Bool-cases, if_cases, if◌then◌else◌}

module _ {ℓ} {A : Type ℓ} where
  abbrev pub length : List A → ℕ
  length [] = 0
  length (x ∷ xs) = suc (length xs)

  abbrev pub get_elem? : List A → ℕ → Option A
  get_elem? [] i = none
  get_elem? (x ∷ xs) zero = some x
  get_elem? (x ∷ xs) (suc i) = get_elem? xs i

  abbrev pub take : ℕ → List A → List A
  take zero xs = []
  take (suc n) [] = []
  take (suc n) (x ∷ xs) = x ∷ take n xs

  abbrev pub drop : ℕ → List A → List A
  drop zero xs = xs
  drop (suc n) [] = []
  drop (suc n) (x ∷ xs) = drop n xs

  -- A predicate by recursion, which the tactics read and build.
  abbrev pub All {κ} : (A → Type κ) → List A → Type κ
  All P [] = Unit
  All P (x ∷ xs) = P x × All P xs

  pub length-append : (xs ys : List A) → length (xs ++ ys) ≡ length xs + length ys
  length-append [] ys = omega arith
  length-append (x ∷ xs) ys = omega (arith, length-append xs ys)

module _ {ℓ} {A : Type ℓ} where
  abbrev pub is_nil : List A → Bool
  is_nil [] = true
  is_nil (x ∷ xs) = false

  -- The elements that pass a test, in order.
  abbrev pub keep : (A → Bool) → List A → List A
  keep f [] = []
  keep f (x ∷ xs) = if f x then x ∷ keep f xs else keep f xs

  pub keep-All {κ} : (P : A → Type κ) (f : A → Bool) (xs : List A) → All P xs → All P (keep f xs)
  keep-All P f [] h = tt
  keep-All P f (x ∷ xs) (p, h) =
      if_cases (All P) (f x) (x ∷ keep f xs) (keep f xs) (λ _. (p, keep-All P f xs h))
        (λ _. keep-All P f xs h)

  pub keep-cong : (f g : A → Bool) (xs : List A) → All (λ x. f x ≡ g x) xs → keep f xs ≡ keep g xs
  keep-cong f g [] h = refl
  keep-cong f g (x ∷ xs) (e, h) = rw (e, keep-cong f g xs h) refl

  pub keep-keep : (f g : A → Bool) (xs : List A) → keep f (keep g xs) ≡ keep (λ x. g x && f x) xs
  keep-keep f g [] = refl
  keep-keep f g (x ∷ xs) = elim (Bool-cases (g x)) [
    | inl e ↦ rw (e, keep-keep f g xs) refl
    | inr e ↦ rw (e, keep-keep f g xs) refl
  ]

module _ {ℓ} {A : Type ℓ} where
  pub take-append-drop : (n : ℕ) (xs : List A) → take n xs ++ drop n xs ≡ xs
  take-append-drop zero xs = refl
  take-append-drop (suc n) [] = refl
  take-append-drop (suc n) (x ∷ xs) = ap (◌∷◌ x) (take-append-drop n xs)

  pub length-drop : (n : ℕ) (xs : List A) → length (drop n xs) ≡ length xs - n
  length-drop zero xs = omega arith
  length-drop (suc n) [] = omega arith
  length-drop (suc n) (x ∷ xs) = omega (arith, length-drop n xs)

  -- A rotation, as `append(xs[i:], xs[:i]...)` makes it, keeps the elements.
  pub drop-append-take-perm : (n : ℕ) (xs : List A) → Perm (drop n xs ++ take n xs) xs
  drop-append-take-perm n xs =
      subst (λ l. Perm (drop n xs ++ take n xs) l) (take-append-drop n xs)
        (perm_append_comm (drop n xs) (take n xs))

  -- `xs[i]`, then `xs[:i]`, then `xs[i+1:]`; out of range nothing moves.
  unfoldable pub front_at : ℕ → List A → List A
  front_at i xs = elim (get_elem? xs i) [ none ↦ xs | some x ↦ x ∷ (take i xs ++ drop (suc i) xs) ]

  split_at :
      (i : ℕ) (xs : List A) {x : A}
      → get_elem? xs i ≡ some x
      → take i xs ++ x ∷ drop (suc i) xs ≡ xs
  split_at i [] h = cc
  split_at zero (y ∷ xs) h = ground arith
  split_at (suc i) (y ∷ xs) h = ap (◌∷◌ y) (split_at i xs h)

  pub front_at-some :
      (i : ℕ) (xs : List A) {x : A}
      → get_elem? xs i ≡ some x
      → front_at i xs ≡ x ∷ (take i xs ++ drop (suc i) xs)
  unfolding front_at
  front_at-some i xs h = rw (h, front_at)

  pub front_at-perm : (i : ℕ) (xs : List A) → Perm (front_at i xs) xs
  unfolding front_at
  front_at-perm i xs = elim (Option-cases (get_elem? xs i)) [
    | inl h ↦ rw (h, front_at) (Perm.refl xs)
    | inr (x, h) ↦
        rw (h, front_at)
          (subst (λ l. Perm (x ∷ (take i xs ++ drop (suc i) xs)) l) (split_at i xs h)
            (Perm.symm (perm_middle (take i xs) (drop (suc i) xs))))
  ]
