-- ===== src/Affinity/Cache.antt =====
-- affinity.go: `Config`, `NewCache`, `Lookup`, `Record` and `evictLocked`. `Lookup` and `Record`
-- take the key of the request, which `Cache.key` derives from it (`none` where it returns false),
-- and the time of the call in nanoseconds, which `time.Now()` reads.
use omnillm.Prelude.{
  ℕ, zero, suc, ◌+◌, ◌*◌, ◌^◌, ◌%◌, Bool, true, not, ◌||◌, Option, none, some, List, [], ◌∷◌, ◌++◌,
  Text, text_eq, length, ltb, is_some, if◌then◌else◌, lookup, insert, delete, ℤ, pos, negsuc,
}

pub record Config : Type 0 where
  pub enabled : Bool
  pub ttl : ℤ
  pub max_entries : ℤ
  pub include_user_id : Bool

-- `5 * time.Minute`
abbrev pub default_ttl : ℕ
default_ttl = 5 * 60 * 1_000_000_000

abbrev pub default_max_entries : ℕ
default_max_entries = 50_000

unfoldable pub default_config : Config
default_config = record {
  enabled = true;
  ttl = pos default_ttl;
  max_entries = pos default_max_entries;
  include_user_id = true;
}

pub record Entry : Type 0 where
  pub instance_id : Text
  pub expires_at : ℕ

-- `ttl` and `max_entries` are those of the configuration that `NewCache` has mended.
pub record Cache : Type 0 where
  pub enabled : Bool
  pub ttl : ℕ
  pub max_entries : ℕ
  pub include_user_id : Bool
  pub entries : List (Text × Entry)
  pub order : List Text
  pub hits : ℕ
  pub misses : ℕ

-- `if x <= 0 { x = default }`
unfoldable pub positive_or : ℕ → ℤ → ℕ
positive_or default (pos zero) = default
positive_or default (pos (suc n)) = suc n
positive_or default (negsuc n) = default

unfoldable pub new_cache : Config → Cache
unfolding positive_or
new_cache cfg = record {
  enabled = cfg.enabled;
  ttl = positive_or default_ttl cfg.ttl;
  max_entries = positive_or default_max_entries cfg.max_entries;
  include_user_id = cfg.include_user_id;
  entries = [];
  order = [];
  hits = 0;
  misses = 0;
}

-- A counter is a `uint64`.
abbrev pub bump : ℕ → ℕ
bump n = (n + 1) % 2 ^ 64

-- `Lookup` behind the check of the key; the entry is what `c.data[k]` reads.
unfoldable pub lookup_entry : Cache → Text → ℕ → Option Entry → Option Text × Cache
lookup_entry c k now none = (none, record c { misses = bump c.misses })
lookup_entry c k now (some e) =
    if ltb e.expires_at now
    then (none, record c { entries = delete k c.entries; misses = bump c.misses })
    else (some e.instance_id, record c { hits = bump c.hits })

unfoldable pub lookup_key : Cache → Text → ℕ → Option Text × Cache
unfolding lookup_entry
lookup_key c k now = lookup_entry c k now (lookup k c.entries)

-- `Lookup`
unfoldable pub lookup_pin : Cache → Option Text → ℕ → Option Text × Cache
unfolding lookup_key
lookup_pin c none now = (none, c)
lookup_pin c (some k) now = if c.enabled then lookup_key c k now else (none, c)

-- The loop of `evictLocked`: the order and the map that are left.
unfoldable pub evict : ℕ → List Text → List (Text × Entry) → List Text × List (Text × Entry)
evict max_entries [] entries = ([], entries)
evict max_entries (oldest ∷ order) entries =
    if ltb max_entries (length entries)
    then evict max_entries order (delete oldest entries)
    else (oldest ∷ order, entries)

-- `Record` behind its guards.
unfoldable pub record_key : Cache → Text → Text → ℕ → Cache
record_key c k instance_id now =
    let order = if is_some (lookup k c.entries) then c.order else c.order ++ k ∷ [] in
    let entry : Entry = record { instance_id = instance_id; expires_at = now + c.ttl } in
    let (order', entries') = evict c.max_entries order (insert k entry c.entries) in
    record c { order = order'; entries = entries' }

-- `Record`
unfoldable pub record_pin : Cache → Option Text → Text → ℕ → Cache
unfolding record_key
record_pin c none instance_id now = c
record_pin c (some k) instance_id now =
    if not c.enabled || text_eq instance_id [] then c else record_key c k instance_id now
