-- ===== src/Routing/Priorities.antt =====
-- `SortProvidersByPriority`: the order of candidates.
use mathlib.Core.List.Perm
use omnillm.Prelude.{
  ◌≡◌, refl, Bool, true, false, List, [], ◌∷◌, Perm, Text, arith, ℤ, pos, negsuc, if_cases,
  if◌then◌else◌,
}
use omnillm.Routing.References.{ProviderInstance, text_le}
use omnillm.Routing.Providers.{
  ModelProvider, priority_of, int_lt, int_eq, provider_less, insert_provider,
  sort_providers_by_priority,
}

-- No provider stands before one of lower priority, or of the same priority and a smaller ID.
abbrev pub IsOrdered : List ProviderInstance → List ModelProvider → Type 0
IsOrdered rows [] = Unit
IsOrdered rows (p ∷ []) = Unit
IsOrdered rows (p ∷ q ∷ ps) = (provider_less rows q p ≡ false) × IsOrdered rows (q ∷ ps)

int_lt_asym : (m n : ℤ) → int_lt m n ≡ true → int_lt n m ≡ false
unfolding int_lt
int_lt_asym (pos m) (pos n) h = ground arith
int_lt_asym (pos m) (negsuc n) h = cc
int_lt_asym (negsuc m) (pos n) h = refl
int_lt_asym (negsuc m) (negsuc n) h = ground arith

int_eq_sym : (m n : ℤ) → int_eq m n ≡ int_eq n m
unfolding int_eq
int_eq_sym (pos m) (pos n) = ground arith
int_eq_sym (pos m) (negsuc n) = refl
int_eq_sym (negsuc m) (pos n) = refl
int_eq_sym (negsuc m) (negsuc n) = ground arith

text_le_total : (s t : Text) → text_le s t ≡ false → text_le t s ≡ true
unfolding text_le
text_le_total [] t h = cc
text_le_total (c ∷ s) [] h = refl
text_le_total (c ∷ s) (d ∷ t) h = ground (arith, text_le_total s t)

provider_less_asym :
    (rows : List ProviderInstance) (p q : ModelProvider)
    → provider_less rows p q ≡ true
    → provider_less rows q p ≡ false
unfolding provider_less
provider_less_asym rows p q h = ground (
  arith,
  int_eq_sym (priority_of rows p.instance_id) (priority_of rows q.instance_id),
  int_lt_asym (priority_of rows p.instance_id) (priority_of rows q.instance_id),
  text_le_total q.instance_id p.instance_id,
)

-- Behind a provider that is not greater than `p` either stands `p` or what stood there.
insert_provider-IsOrdered :
    (rows : List ProviderInstance) (p : ModelProvider) (ps : List ModelProvider)
    → IsOrdered rows ps
    → IsOrdered rows (insert_provider rows p ps)
unfolding insert_provider
insert_provider-IsOrdered rows p [] h = tt
insert_provider-IsOrdered rows p (q ∷ []) h =
    if_cases (IsOrdered rows) (provider_less rows q p) (q ∷ p ∷ []) (p ∷ q ∷ [])
      (λ l. (provider_less_asym rows q p l, tt)) (λ l. (l, tt))
insert_provider-IsOrdered rows p (q ∷ r ∷ ps) (o, h) =
    if_cases (IsOrdered rows) (provider_less rows q p) (q ∷ insert_provider rows p (r ∷ ps))
      (p ∷ q ∷ r ∷ ps)
      (λ l.
        under (provider_less rows r p) refl (provider_less_asym rows q p l)
          (insert_provider-IsOrdered rows p (r ∷ ps) h))
      (λ l. (l, (o, h)))
  where
    under :
        (b : Bool)
        → provider_less rows r p ≡ b
        → provider_less rows p q ≡ false
        → IsOrdered rows (if b then r ∷ insert_provider rows p ps else p ∷ r ∷ ps)
        → IsOrdered rows (q ∷ (if b then r ∷ insert_provider rows p ps else p ∷ r ∷ ps))
    under true e l k = (o, k)
    under false e l k = (l, k)

insert_provider-perm :
    (rows : List ProviderInstance) (p : ModelProvider) (ps : List ModelProvider)
    → Perm (insert_provider rows p ps) (p ∷ ps)
unfolding insert_provider
insert_provider-perm rows p [] = Perm.refl (p ∷ [])
insert_provider-perm rows p (q ∷ qs) =
    if_cases (λ l. Perm l (p ∷ q ∷ qs)) (provider_less rows q p) (q ∷ insert_provider rows p qs)
      (p ∷ q ∷ qs)
      (λ _. Perm.trans (Perm.cons q (insert_provider-perm rows p qs)) (Perm.swap p q qs))
      (λ _. Perm.refl (p ∷ q ∷ qs))

pub sort_providers_by_priority-perm :
    (rows : List ProviderInstance) (ps : List ModelProvider)
    → Perm (sort_providers_by_priority rows ps) ps
unfolding sort_providers_by_priority
sort_providers_by_priority-perm rows [] = Perm.refl []
sort_providers_by_priority-perm rows (p ∷ ps) =
    Perm.trans (insert_provider-perm rows p (sort_providers_by_priority rows ps))
      (Perm.cons p (sort_providers_by_priority-perm rows ps))

pub sort_providers_by_priority-IsOrdered :
    (rows : List ProviderInstance) (ps : List ModelProvider)
    → IsOrdered rows (sort_providers_by_priority rows ps)
unfolding sort_providers_by_priority
sort_providers_by_priority-IsOrdered rows [] = tt
sort_providers_by_priority-IsOrdered rows (p ∷ ps) =
    insert_provider-IsOrdered rows p (sort_providers_by_priority rows ps)
      (sort_providers_by_priority-IsOrdered rows ps)
