-- ===== src/Routing/Order.antt =====
-- The order in which candidates are to be tried, written out, and the comparator of
-- `SortProvidersByPriority`.
use omnillm.Prelude.{
  ℕ, ◌<◌, ◌≡◌, ◌⊎◌, refl, ap, sym, ◌∙◌, Bool, true, false, not, List, [], ◌∷◌, Text, arith, ℤ, pos,
  negsuc, text_eq, lookup, insert, lookup-insert, Bool-cases, inl, inr, if◌then◌else◌, ltb, ◌==◌,
  ◌||◌, ◌&&◌,
}
use omnillm.Routing.References.{ProviderInstance, text_le}
use omnillm.Routing.Providers.{
  ModelProvider, or_default, priority_map, priority_of, int_lt, int_eq, provider_less,
}
use omnillm.Routing.Priorities.{IsOrdered}

abbrev pub IsBelow : ℤ → ℤ → Type 0
IsBelow (pos m) (pos n) = m < n
IsBelow (pos m) (negsuc n) = ⊥
IsBelow (negsuc m) (pos n) = Unit
IsBelow (negsuc m) (negsuc n) = n < m

-- The lexicographic order of byte strings.
abbrev pub IsUpTo : Text → Text → Type 0
IsUpTo [] t = Unit
IsUpTo (c ∷ s) [] = ⊥
IsUpTo (c ∷ s) (d ∷ t) = (c < d) ⊎ ((c ≡ d) × IsUpTo s t)

-- The priority in the last row of an ID, or the one given if there is no such row.
abbrev pub last_priority : ℤ → List ProviderInstance → Text → ℤ
last_priority default [] id = default
last_priority default (r ∷ rows) id =
    last_priority (if text_eq r.instance_id id then r.priority else default) rows id

-- One provider may stand before another: it has the smaller priority number, which is 0 without a
-- row, or the same and an instance ID up to the other's.
abbrev pub IsBefore : List ProviderInstance → ModelProvider → ModelProvider → Type 0
IsBefore rows p q =
    IsBelow (last_priority (pos 0) rows p.instance_id) (last_priority (pos 0) rows q.instance_id)
    ⊎ ((last_priority (pos 0) rows p.instance_id ≡ last_priority (pos 0) rows q.instance_id)
        × IsUpTo p.instance_id q.instance_id)

abbrev pub IsSorted : List ProviderInstance → List ModelProvider → Type 0
IsSorted rows [] = Unit
IsSorted rows (p ∷ []) = Unit
IsSorted rows (p ∷ q ∷ ps) = IsBefore rows p q × IsSorted rows (q ∷ ps)

int_lt-IsBelow : (m n : ℤ) → int_eq n m ≡ false → int_lt n m ≡ false → IsBelow m n
unfolding int_lt int_eq
int_lt-IsBelow (pos m) (pos n) e h = ground arith
int_lt-IsBelow (pos m) (negsuc n) e h = cc
int_lt-IsBelow (negsuc m) (pos n) e h = tt
int_lt-IsBelow (negsuc m) (negsuc n) e h = ground arith

int_eq-same : (m n : ℤ) → int_eq n m ≡ true → m ≡ n
unfolding int_eq
int_eq-same (pos m) (pos n) e = ap pos (ground arith)
int_eq-same (pos m) (negsuc n) e = cc
int_eq-same (negsuc m) (pos n) e = cc
int_eq-same (negsuc m) (negsuc n) e = ap negsuc (ground arith)

text_le-IsUpTo : (s t : Text) → text_le s t ≡ true → IsUpTo s t
unfolding text_le
text_le-IsUpTo [] t h = tt
text_le-IsUpTo (c ∷ s) [] h = cc
text_le-IsUpTo (c ∷ s) (d ∷ t) h = elim (below c d (text_le s t) h) [
  | inl l ↦ inl l
  | inr (e, k) ↦ inr (e, text_le-IsUpTo s t k)
]
  where
    below :
        (c d : ℕ) (b : Bool) → (ltb c d || (c == d && b)) ≡ true → (c < d) ⊎ ((c ≡ d) × (b ≡ true))
    below c d b h = ground arith

priority_map-last :
    (rows : List ProviderInstance) (m : List (Text × ℤ)) (id : Text)
    → or_default (lookup id (priority_map rows m))
      ≡ last_priority (or_default (lookup id m)) rows id
unfolding priority_map
priority_map-last [] m id = refl
priority_map-last (r ∷ rows) m id =
    priority_map-last rows (insert r.instance_id r.priority m) id
    ∙ ap (λ n. last_priority n rows id) (behind_insert r.instance_id r.priority)
  where
    behind_insert :
        (j : Text) (n : ℤ)
        → or_default (lookup id (insert j n m))
          ≡ (if text_eq j id then n else or_default (lookup id m))
    behind_insert j n = elim (Bool-cases (text_eq j id)) [
      | inl e ↦ rw (lookup-insert j id n m, e) refl
      | inr e ↦ rw (lookup-insert j id n m, e) refl
    ]

priority_of-last :
    (rows : List ProviderInstance) (id : Text) → priority_of rows id ≡ last_priority (pos 0) rows id
unfolding priority_of lookup
priority_of-last rows id = priority_map-last rows [] id

provider_less-IsBefore :
    (rows : List ProviderInstance) (p q : ModelProvider)
    → provider_less rows q p ≡ false
    → IsBefore rows p q
unfolding provider_less
provider_less-IsBefore rows p q h =
    rw (sym (priority_of-last rows p.instance_id), sym (priority_of-last rows q.instance_id))
      (by_test (priority_of rows p.instance_id) (priority_of rows q.instance_id) h)
  where
    by_test :
        (m n : ℤ)
        → (if not (int_eq n m) then int_lt n m else not (text_le p.instance_id q.instance_id))
          ≡ false
        → IsBelow m n ⊎ ((m ≡ n) × IsUpTo p.instance_id q.instance_id)
    by_test m n k = elim (Bool-cases (int_eq n m)) [
      | inl e ↦ inr (int_eq-same m n e, text_le-IsUpTo p.instance_id q.instance_id (ground arith))
      | inr e ↦ inl (int_lt-IsBelow m n e (ground arith))
    ]

pub IsOrdered-IsSorted :
    (rows : List ProviderInstance) (ps : List ModelProvider) → IsOrdered rows ps → IsSorted rows ps
IsOrdered-IsSorted rows [] h = tt
IsOrdered-IsSorted rows (p ∷ []) h = tt
IsOrdered-IsSorted rows (p ∷ q ∷ ps) (l, h) =
    (provider_less-IsBefore rows p q l, IsOrdered-IsSorted rows (q ∷ ps) h)
