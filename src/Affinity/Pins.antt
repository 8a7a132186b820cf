-- ===== src/Affinity/Pins.antt =====
-- What `Lookup` finds behind a `Record`.
use omnillm.Prelude.{
  ℕ, ◌+◌, ◌≤◌, ◌<◌, ◌≡◌, ◌≢◌, ◌⊎◌, refl, ap, ◌∙◌, true, false, none, some, List, [], ◌∷◌, ◌++◌,
  arith, Text, text_eq_iff, length, ltb, is_some, lookup, insert, delete, member,
  lookup-insert_self, lookup-delete, IsMap, insert-IsMap, delete-IsMap, length-insert,
  length-delete-le, length-delete-lt, inl, inr, if_cases, lt→ltb,
}
use omnillm.Affinity.Cache.{
  Entry, Cache, lookup_entry, lookup_key, lookup_pin, evict, record_key, record_pin,
}
use omnillm.Affinity.Bounds.{Covers, Covers-delete, Covers-insert, IsValid}

-- A map whose keys stand in a list of one key has one entry at most.
Covers-one :
    (k : Text) (entries : List (Text × Entry))
    → IsMap entries
    → Covers (k ∷ []) entries
    → length entries ≤ 1
unfolding lookup member
Covers-one k [] im cov = omega arith
Covers-one k ((a, e) ∷ []) im cov = omega arith
Covers-one k ((a, e) ∷ (b, f) ∷ m) im cov = ground (
  arith,
  im,
  cov a,
  cov b,
  text_eq_iff k a,
  text_eq_iff k b,
  text_eq_iff a a,
  text_eq_iff a b,
  text_eq_iff b b,
  text_eq_iff b a,
)

-- A key that stands last in the order, and nowhere before, outlives the eviction.
evict_last :
    (m : ℕ) (k : Text) (order : List Text) (entries : List (Text × Entry))
    → 0 < m
    → length entries ≤ m + 1
    → IsMap entries
    → Covers (order ++ k ∷ []) entries
    → member k order ≡ false
    → lookup k (evict m (order ++ k ∷ []) entries).1 ≡ lookup k entries
unfolding evict member
evict_last m k [] entries pos len im cov fresh = ground (arith, Covers-one k entries im cov)
evict_last m k (j ∷ order) entries pos len im cov fresh =
    if_cases (λ (r : List Text × List (Text × Entry)). lookup k r.1 ≡ lookup k entries)
      (ltb m (length entries)) _ _
      (λ more.
        evict_last m k order (delete j entries) pos (omega (arith, length-delete-le j entries))
          (delete-IsMap j entries im) (Covers-delete j (order ++ k ∷ []) entries cov) (ground arith)
        ∙ ground (arith, lookup-delete j k entries))
      (λ done. refl)

evict_fits :
    (m : ℕ) (order : List Text) (entries : List (Text × Entry))
    → length entries ≤ m
    → evict m order entries ≡ (order, entries)
unfolding evict
evict_fits m [] entries h = refl
evict_fits m (k ∷ order) entries h = ground arith

-- One entry too many: the first key of the order goes, if it is there, and no other.
evict_first :
    (m : ℕ) (k : Text) (order : List Text) (entries : List (Text × Entry))
    → m < length entries
    → length entries ≤ m + 1
    → is_some (lookup k entries) ≡ true
    → lookup k (evict m (k ∷ order) entries).1 ≡ none
unfolding evict
evict_first m k order entries over len there = rw (lt→ltb m (length entries) over) (
    ap (λ (r : List Text × List (Text × Entry)). lookup k r.1)
      (evict_fits m order (delete k entries) (omega (arith, length-delete-lt k entries there)))
    ∙ ground (arith, lookup-delete k k entries, text_eq_iff k k))

-- The entry that `Record` writes.
abbrev new_entry : Cache → Text → ℕ → Entry
new_entry c instance_id now = record { instance_id = instance_id; expires_at = now + c.ttl }

record_key-lookup :
    (c : Cache) (k instance_id : Text) (now : ℕ)
    → IsValid c
    → (is_some (lookup k c.entries) ≡ true) ⊎ (member k c.order ≡ false)
    → lookup k (record_key c k instance_id now).entries ≡ some (new_entry c instance_id now)
unfolding record_key
record_key-lookup c k instance_id now v (inl old) = rw old (
    ap (λ (r : List Text × List (Text × Entry)). lookup k r.1)
      (evict_fits c.max_entries c.order (insert k e c.entries)
        (ground (arith, v.bounded, length-insert k e c.entries)))
    ∙ lookup-insert_self k e c.entries)
  where
    e : Entry
    e = new_entry c instance_id now
record_key-lookup c k instance_id now v (inr fresh) = rw absent (
    evict_last c.max_entries k c.order (insert k e c.entries) v.positive
      (ground (arith, v.bounded, length-insert k e c.entries)) (insert-IsMap k e c.entries v.is_map)
      (rw absent at (Covers-insert c k e v)) fresh
    ∙ lookup-insert_self k e c.entries)
  where
    e : Entry
    e = new_entry c instance_id now

    absent : is_some (lookup k c.entries) ≡ false
    absent = ground (arith, v.covered k)

record_key-enabled :
    (c : Cache) (k instance_id : Text) (now : ℕ)
    → (record_key c k instance_id now).enabled ≡ c.enabled
unfolding record_key
record_key-enabled c k instance_id now = refl

-- The round trip: in a valid, enabled cache, if the conversation's key is still pinned or was never
-- recorded, then until the entry expires a `Lookup` behind a `Record` returns the instance.
pub lookup_pin-record_pin :
    (c : Cache) (k instance_id : Text) (now later : ℕ)
    → IsValid c
    → c.enabled ≡ true
    → instance_id ≢ []
    → (is_some (lookup k c.entries) ≡ true) ⊎ (member k c.order ≡ false)
    → later ≤ now + c.ttl
    → (lookup_pin (record_pin c (some k) instance_id now) (some k) later).0 ≡ some instance_id
unfolding lookup_pin record_pin lookup_key lookup_entry
lookup_pin-record_pin c k instance_id now later v on named seen soon = ground (
  arith,
  record_key-enabled c k instance_id now,
  record_key-lookup c k instance_id now v seen,
  text_eq_iff instance_id [],
)

-- A key that expired keeps its old place in the order. If that place is the first and the cache is
-- full, recording the conversation again evicts what has just been written: the `Lookup` behind
-- the `Record` misses, whenever it comes.
pub record_pin_stale :
    (c : Cache) (k instance_id : Text) (order : List Text) (now later : ℕ)
    → IsValid c
    → c.order ≡ k ∷ order
    → lookup k c.entries ≡ none
    → length c.entries ≡ c.max_entries
    → (lookup_pin (record_pin c (some k) instance_id now) (some k) later).0 ≡ none
unfolding lookup_pin record_pin record_key lookup_key lookup_entry
record_pin_stale c k instance_id order now later v first expired full = ground (arith, stale)
  where
    e : Entry
    e = new_entry c instance_id now

    absent : is_some (lookup k c.entries) ≡ false
    absent = ground arith

    stale : lookup k (record_key c k instance_id now).entries ≡ none
    stale = rw absent (
        ap (λ o. lookup k (evict c.max_entries (o ++ k ∷ []) (insert k e c.entries)).1) first
        ∙ evict_first c.max_entries k (order ++ k ∷ []) (insert k e c.entries)
            (ground (arith, length-insert k e c.entries))
            (ground (arith, length-insert k e c.entries))
            (ground (arith, lookup-insert_self k e c.entries)))
