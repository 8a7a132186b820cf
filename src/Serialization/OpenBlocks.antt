-- ===== src/Serialization/OpenBlocks.antt =====
-- The open blocks of a stream: their indices and their order.
use omnillm.Prelude.{
  ℕ, suc, ◌<◌, ◌≡◌, refl, ap, inl, inr, true, false, none, some, List, [], ◌∷◌, ◌++◌, arith, ◌==◌,
  index_lookup, index_insert, index_delete, index_member, index_remove, Bool-cases,
}
use omnillm.Serialization.AnthropicState.{OpenBlock, remove_first}

-- The provider indices of the open blocks, and the indices that the client has for them.
abbrev pub provider_indices : List (ℕ × OpenBlock) → List ℕ
provider_indices [] = []
provider_indices ((p, b) ∷ blocks) = p ∷ provider_indices blocks

abbrev pub client_indices : List (ℕ × OpenBlock) → List ℕ
client_indices [] = []
client_indices ((p, b) ∷ blocks) = b.anthropic_idx ∷ client_indices blocks

-- No provider index and no index of the client stands twice, and those of the client are below the
-- next one.
abbrev pub Apart : ℕ → List (ℕ × OpenBlock) → Type 0
Apart n [] = Unit
Apart n ((p, b) ∷ blocks) =
    (index_lookup p blocks ≡ none)
    × (index_member b.anthropic_idx (client_indices blocks) ≡ false)
    × (b.anthropic_idx < n)
    × Apart n blocks

pub delete_absent :
    (p : ℕ) (blocks : List (ℕ × OpenBlock))
    → index_lookup p blocks ≡ none
    → index_delete p blocks ≡ blocks
unfolding index_lookup index_delete
delete_absent p [] h = refl
delete_absent p ((q, b) ∷ blocks) h = ground (arith, delete_absent p blocks)

pub remove_absent : (i : ℕ) (js : List ℕ) → index_member i js ≡ false → index_remove i js ≡ js
unfolding index_member index_remove
remove_absent i [] h = refl
remove_absent i (j ∷ js) h = ground (arith, remove_absent i js)

-- The block of a provider index is one of those that the client has open.
pub lookup-member :
    (p : ℕ) (blocks : List (ℕ × OpenBlock)) {b : OpenBlock}
    → index_lookup p blocks ≡ some b
    → index_member b.anthropic_idx (client_indices blocks) ≡ true
unfolding index_lookup index_member
lookup-member p [] h = cc
lookup-member p ((q, c) ∷ blocks) {b} h = ground (arith, lookup-member p blocks {b = b})

pub client_indices-index_delete :
    (n p : ℕ) (blocks : List (ℕ × OpenBlock)) {b : OpenBlock}
    → Apart n blocks
    → index_lookup p blocks ≡ some b
    → client_indices (index_delete p blocks) ≡ index_remove b.anthropic_idx (client_indices blocks)
unfolding index_lookup index_delete index_remove
client_indices-index_delete n p [] a h = cc
client_indices-index_delete n p ((q, c) ∷ blocks) {b} (fresh, apart, below, rest) h = ground (
  arith,
  client_indices-index_delete n p blocks {b = b} rest,
  delete_absent p blocks,
  remove_absent b.anthropic_idx (client_indices blocks),
  lookup-member p blocks {b = b},
)

pub provider_indices-index_delete :
    (n p : ℕ) (blocks : List (ℕ × OpenBlock))
    → Apart n blocks
    → provider_indices (index_delete p blocks) ≡ remove_first p (provider_indices blocks)
unfolding index_delete remove_first
provider_indices-index_delete n p [] a = refl
provider_indices-index_delete n p ((q, c) ∷ blocks) (fresh, apart, below, rest) =
    ground (arith, provider_indices-index_delete n p blocks rest, delete_absent p blocks)

lookup-delete_none :
    (p q : ℕ) (blocks : List (ℕ × OpenBlock))
    → index_lookup q blocks ≡ none
    → index_lookup q (index_delete p blocks) ≡ none
unfolding index_lookup index_delete
lookup-delete_none p q [] h = refl
lookup-delete_none p q ((r, c) ∷ blocks) h = ground (arith, lookup-delete_none p q blocks)

member-delete :
    (i p : ℕ) (blocks : List (ℕ × OpenBlock))
    → index_member i (client_indices blocks) ≡ false
    → index_member i (client_indices (index_delete p blocks)) ≡ false
unfolding index_member index_delete
member-delete i p [] h = refl
member-delete i p ((r, c) ∷ blocks) h = ground (arith, member-delete i p blocks)

pub index_delete-Apart :
    (n p : ℕ) (blocks : List (ℕ × OpenBlock)) → Apart n blocks → Apart n (index_delete p blocks)
unfolding index_delete
index_delete-Apart n p [] a = tt
index_delete-Apart n p ((q, c) ∷ blocks) (fresh, apart, below, rest) = elim (Bool-cases (q == p)) [
  | inl e ↦ rw e (index_delete-Apart n p blocks rest)
  | inr e ↦ rw e (
    lookup-delete_none p q blocks fresh,
    member-delete c.anthropic_idx p blocks apart,
    below,
    index_delete-Apart n p blocks rest,
  )
]

-- A block that is opened goes to the end.
pub insert_absent :
    (p : ℕ) (b : OpenBlock) (blocks : List (ℕ × OpenBlock))
    → index_lookup p blocks ≡ none
    → index_insert p b blocks ≡ blocks ++ (p, b) ∷ []
unfolding index_lookup index_insert
insert_absent p b [] h = refl
insert_absent p b ((q, c) ∷ blocks) h = ground (arith, insert_absent p b blocks)

pub client_indices-snoc :
    (blocks : List (ℕ × OpenBlock)) (p : ℕ) (b : OpenBlock)
    → client_indices (blocks ++ (p, b) ∷ []) ≡ client_indices blocks ++ b.anthropic_idx ∷ []
client_indices-snoc [] p b = refl
client_indices-snoc ((q, c) ∷ blocks) p b =
    ap (◌∷◌ c.anthropic_idx) (client_indices-snoc blocks p b)

pub provider_indices-snoc :
    (blocks : List (ℕ × OpenBlock)) (p : ℕ) (b : OpenBlock)
    → provider_indices (blocks ++ (p, b) ∷ []) ≡ provider_indices blocks ++ p ∷ []
provider_indices-snoc [] p b = refl
provider_indices-snoc ((q, c) ∷ blocks) p b = ap (◌∷◌ q) (provider_indices-snoc blocks p b)

lookup-snoc :
    (blocks : List (ℕ × OpenBlock)) (p q : ℕ) (b : OpenBlock)
    → index_lookup q blocks ≡ none
    → (p == q) ≡ false
    → index_lookup q (blocks ++ (p, b) ∷ []) ≡ none
unfolding index_lookup
lookup-snoc [] p q b h ne = ground arith
lookup-snoc ((r, c) ∷ blocks) p q b h ne = ground (arith, lookup-snoc blocks p q b)

member-snoc :
    (blocks : List (ℕ × OpenBlock)) (p i : ℕ) (b : OpenBlock)
    → index_member i (client_indices blocks) ≡ false
    → i < b.anthropic_idx
    → index_member i (client_indices (blocks ++ (p, b) ∷ [])) ≡ false
unfolding index_member
member-snoc [] p i b h lt = ground arith
member-snoc ((r, c) ∷ blocks) p i b h lt = ground (arith, member-snoc blocks p i b)

pub snoc-Apart :
    (blocks : List (ℕ × OpenBlock)) (p : ℕ) (b : OpenBlock)
    → Apart b.anthropic_idx blocks
    → index_lookup p blocks ≡ none
    → Apart (suc b.anthropic_idx) (blocks ++ (p, b) ∷ [])
unfolding index_lookup index_member
snoc-Apart [] p b a h = (refl, refl, omega arith, tt)
snoc-Apart ((q, c) ∷ blocks) p b (fresh, apart, below, rest) h = (
  lookup-snoc blocks p q b fresh (ground arith),
  member-snoc blocks p c.anthropic_idx b apart below,
  omega arith,
  snoc-Apart blocks p b rest (ground arith),
)
