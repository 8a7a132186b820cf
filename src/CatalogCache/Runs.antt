-- ===== src/CatalogCache/Runs.antt =====
-- The runs of a catalog cache: calls of `Get` of several goroutines, one critical section after
-- another, and the changes of the versions in between.
use omnillm.Prelude.{ℕ, some, List, [], ◌∷◌, Text, ◌≡◌, index_lookup, index_insert}
use omnillm.Registry.Defs.{Version, current, invalidate, refresh_catalog}
use omnillm.CatalogCache.Defs.{
  Cache, Key, Fetched, Begin, wait, answer, fetch, new_catalog_cache, get_begin, get_finish,
}

-- A fetch that has returned: its key, the version when it began, the time when it returned.
pub record Discovery (M : Type 0) : Type 0 where
  pub of : Key
  pub began : Version
  pub at : ℕ
  pub result : Fetched M

-- The cache, the versions of the catalogs, the fetches that were begun, by the number of their
-- entry, and the fetches that have returned.
pub record System (M : Type 0) : Type 0 where
  pub cache : Cache M
  pub versions : List (Text × Version)
  pub begun : List (ℕ × (Key × Version))
  pub returned : List (Discovery M)

module _ {M : Type 0} where
  unfoldable pub after_begin : System M → Key → Begin M → Cache M → System M
  after_begin s k (wait n) c = record s { cache = c }
  after_begin s k (answer a) c = record s { cache = c }
  after_begin s k (fetch n) c = record s {
    cache = c;
    begun = index_insert n (k, current k.0 s.versions) s.begun;
  }

  unfoldable pub begin_step : System M → Key → ℕ → System M
  unfolding after_begin
  begin_step s k now = let (b, c) = get_begin s.cache s.versions k now in after_begin s k b c

  unfoldable pub finish_step : System M → Key → Version → ℕ → ℕ → Fetched M → System M
  finish_step s k began ident now result = record s {
    cache = (get_finish s.cache s.versions k began now ident result).1;
    returned = record { of = k; began = began; at = now; result = result } ∷ s.returned;
  }

  unfoldable pub start : ℕ → ℕ → List (Text × Version) → System M
  start ttl max_stale versions = record {
    cache = new_catalog_cache ttl max_stale;
    versions = versions;
    begun = [];
    returned = [];
  }

  -- The systems that a new cache can come to. A fetch returns what it will, behind any others.
  pub data Reachable : System M → Type 0 where
    started :
        (ttl max_stale : ℕ) (versions : List (Text × Version))
        → Reachable (start ttl max_stale versions)
    began : {s : System M} (k : Key) (now : ℕ) → Reachable s → Reachable (begin_step s k now)
    finished :
        {s : System M} (k : Key) (v : Version) (ident now : ℕ) (result : Fetched M)
        → index_lookup ident s.begun ≡ some (k, v)
        → Reachable s
        → Reachable (finish_step s k v ident now result)
    invalidated :
        {s : System M} (id : Text)
        → Reachable s
        → Reachable (record s { versions = invalidate id s.versions })
    refreshed :
        {s : System M} (id : Text)
        → Reachable s
        → Reachable (record s { versions = refresh_catalog id s.versions })
