-- ===== src/Affinity/Bounds.antt =====
-- The invariant of the cache: never more entries than the limit, and every key of the map has a
-- place in the order, so that the eviction reaches it.
use omnillm.Prelude.{
  ℕ, zero, suc, ◌≤◌, ◌<◌, ◌≡◌, refl, true, not, ◌||◌, Option, none, some, List, [], ◌∷◌, ◌++◌,
  arith, Text, text_eq, text_eq_iff, length, ltb, is_some, if◌then◌else◌, lookup, insert, delete,
  member, lookup-insert, lookup-delete, IsMap, insert-IsMap, delete-IsMap, length-delete-le, inl,
  inr, Bool-cases, if_cases, ℤ, pos, negsuc,
}
use omnillm.Affinity.Cache.{
  Config, Entry, Cache, positive_or, new_cache, lookup_entry, lookup_key, lookup_pin, evict,
  record_key, record_pin,
}

-- Every key of the map stands in the order.
abbrev pub Covers : List Text → List (Text × Entry) → Type 0
Covers order entries = (k : Text) → is_some (lookup k entries) ≡ true → member k order ≡ true

pub record IsValid (c : Cache) : Type 0 where
  pub positive : 0 < c.max_entries
  pub is_map : IsMap c.entries
  pub covered : Covers c.order c.entries
  pub bounded : length c.entries ≤ c.max_entries

positive_or-pos : (default : ℕ) (x : ℤ) → 0 < default → 0 < positive_or default x
unfolding positive_or
positive_or-pos d (pos zero) h = h
positive_or-pos d (pos (suc n)) h = omega arith
positive_or-pos d (negsuc n) h = h

-- Whatever the configuration, a new cache satisfies the invariant.
pub new_cache-IsValid : (cfg : Config) → IsValid (new_cache cfg)
unfolding new_cache lookup
new_cache-IsValid cfg = record {
  positive = positive_or-pos 50_000 cfg.max_entries (omega arith);
  is_map = tt;
  covered = λ k h. cc;
  bounded = omega arith;
}

member-append_left :
    (k : Text) (xs ys : List Text) → member k xs ≡ true → member k (xs ++ ys) ≡ true
unfolding member
member-append_left k [] ys h = cc
member-append_left k (x ∷ xs) ys h = ground (arith, member-append_left k xs ys)

member-append_last :
    (k j : Text) (xs : List Text) → text_eq k j ≡ true → member j (xs ++ k ∷ []) ≡ true
unfolding member
member-append_last k j [] h = ground arith
member-append_last k j (x ∷ xs) h = ground (arith, member-append_last k j xs h)

pub Covers-delete :
    (k : Text) (order : List Text) (entries : List (Text × Entry))
    → Covers (k ∷ order) entries
    → Covers order (delete k entries)
unfolding member
Covers-delete k order entries c j h = ground (arith, lookup-delete k j entries, c j)

Covers-delete_any :
    (k : Text) (order : List Text) (entries : List (Text × Entry))
    → Covers order entries
    → Covers order (delete k entries)
Covers-delete_any k order entries c j h = ground (arith, lookup-delete k j entries, c j)

-- A map whose keys stand in the empty list is empty.
Covers-nil : (entries : List (Text × Entry)) → Covers [] entries → length entries ≡ 0
unfolding member lookup
Covers-nil [] c = refl
Covers-nil ((k, e) ∷ entries) c = ground (arith, c k, text_eq_iff k k)

-- The eviction ends within the limit, and keeps the order covering the map.
pub evict_lem :
    (max_entries : ℕ) (order : List Text) (entries : List (Text × Entry))
    → IsMap entries
    → Covers order entries
    → let (order', entries') = evict max_entries order entries in
      IsMap entries' × Covers order' entries' × (length entries' ≤ max_entries)
unfolding evict
evict_lem m [] entries im c = (im, c, omega (arith, Covers-nil entries c))
evict_lem m (k ∷ order) entries im c = elim (Bool-cases (ltb m (length entries))) [
  | inl more ↦ rw more (
      evict_lem m order (delete k entries) (delete-IsMap k entries im)
        (Covers-delete k order entries c))
  | inr done ↦ rw done (im, c, ground arith)
]

-- The order that `Record` hands to the eviction covers the map with the new entry.
pub Covers-insert :
    (c : Cache) (k : Text) (e : Entry)
    → IsValid c
    → Covers
        (if is_some (lookup k c.entries) then c.order else c.order ++ k ∷ [])
        (insert k e c.entries)
Covers-insert c k e v j h = elim (Bool-cases (is_some (lookup k c.entries))) [
  | inl old ↦
      rw old
        (ground (arith, lookup-insert k j e c.entries, v.covered j, v.covered k, text_eq_iff k j))
  | inr new ↦ rw new (elim (Bool-cases (text_eq k j)) [
    | inl same ↦ member-append_last k j c.order same
    | inr other ↦
        member-append_left j c.order (k ∷ [])
          (v.covered j (ground (arith, lookup-insert k j e c.entries)))
  ])
]

record_key-IsValid :
    (c : Cache) (k instance_id : Text) (now : ℕ)
    → IsValid c
    → IsValid (record_key c k instance_id now)
unfolding record_key
record_key-IsValid c k instance_id now v =
    let (im, cov, len) =
      evict_lem c.max_entries _ _ (insert-IsMap k _ c.entries v.is_map) (Covers-insert c k _ v) in
    record { positive = v.positive; is_map = im; covered = cov; bounded = len }

lookup_entry-IsValid :
    (c : Cache) (k : Text) (now : ℕ) (e : Option Entry)
    → IsValid c
    → IsValid (lookup_entry c k now e).1
unfolding lookup_entry
lookup_entry-IsValid c k now none v = record {
  positive = v.positive;
  is_map = v.is_map;
  covered = v.covered;
  bounded = v.bounded;
}
lookup_entry-IsValid c k now (some e) v = elim (Bool-cases (ltb e.expires_at now)) [
  | inl expired ↦ rw expired (record {
    positive = v.positive;
    is_map = delete-IsMap k c.entries v.is_map;
    covered = Covers-delete_any k c.order c.entries v.covered;
    bounded = omega (arith, v.bounded, length-delete-le k c.entries);
  })
  | inr fresh ↦ rw fresh (record {
    positive = v.positive;
    is_map = v.is_map;
    covered = v.covered;
    bounded = v.bounded;
  })
]

-- `Lookup` keeps the invariant.
pub lookup_pin-IsValid :
    (c : Cache) (key : Option Text) (now : ℕ) → IsValid c → IsValid (lookup_pin c key now).1
unfolding lookup_pin lookup_key
lookup_pin-IsValid c none now v = v
lookup_pin-IsValid c (some k) now v =
    if_cases (λ (r : Option Text × Cache). IsValid r.1) c.enabled _ _
      (λ on. lookup_entry-IsValid c k now (lookup k c.entries) v) (λ off. v)

-- `Record` keeps the invariant: never more than `MaxEntries` entries, each within reach of the
-- eviction.
pub record_pin-IsValid :
    (c : Cache) (key : Option Text) (instance_id : Text) (now : ℕ)
    → IsValid c
    → IsValid (record_pin c key instance_id now)
unfolding record_pin
record_pin-IsValid c none instance_id now v = v
record_pin-IsValid c (some k) instance_id now v =
    if_cases IsValid (not c.enabled || text_eq instance_id []) _ _ (λ skip. v)
      (λ run. record_key-IsValid c k instance_id now v)
