-- ===== src/CatalogCache/Provenance.antt =====
-- Where the answers of a catalog cache come from.
use omnillm.Prelude.{
  ℕ, ◌+◌, ◌<◌, true, false, Option, none, some, ◌≡◌, ◌⊎◌, inl, inr, refl, subst, codes, text_eq_iff,
  arith, not, ltb, ◌&&◌,
}
use omnillm.Registry.Defs.{current}
use omnillm.CatalogCache.Defs.{
  Cache, Entry, Key, version_eq, ModelsResponse, CatalogError, Begin, wait, answer, fetch,
  new_catalog_cache, entry_at, start_fetch, get_begin, get_finish, is_last_good, retry_interval,
}
use omnillm.CatalogCache.Runs.{
  Discovery, System, finish_step, start, Reachable, started, began, finished, invalidated,
  refreshed,
}
use mathlib.Core.List.{Memᴰ}
use omnillm.CatalogCache.Backing.{IsFor, Brought, ResponseFrom, All-entry_at}
use omnillm.CatalogCache.Steps.{SoundSystem, begin_at-cases, begin_step-Sound, finish_at-Sound}

module _ {M : Type 0} where
  Reachable-Sound : {s : System M} → Reachable s → SoundSystem s
  unfolding finish_step get_finish start new_catalog_cache
  Reachable-Sound (started ttl max_stale versions) = tt
  Reachable-Sound (began {s} k now r) = begin_step-Sound s k now (Reachable-Sound r)
  Reachable-Sound (finished {s} k v ident now result at r) =
      finish_at-Sound s k v ident now result (entry_at k s.cache.entries) at
        (λ e eq. All-entry_at _ k e s.cache.entries (Reachable-Sound r) eq) (Reachable-Sound r)
  Reachable-Sound (invalidated id r) = Reachable-Sound r
  Reachable-Sound (refreshed id r) = Reachable-Sound r

  -- A fetch for the key under the current lifecycle brought the models of the response, and at the
  -- time `now` the response is as old as it may be.
  abbrev pub IsBacked : System M → Key → ℕ → ModelsResponse M → Type 0
  IsBacked s k now r =
      (f : Discovery M) × Memᴰ f s.returned
      × IsFor k (current k.0 s.versions) f
      × Brought r f.result.0
      × (((r.degraded ≡ false) × (f.result.1 ≡ none) × (now < f.at + s.cache.ttl))
          ⊎ (((r.degraded ≡ true) × (now < f.at + retry_interval))
              ⊎ ((r.degraded ≡ true) × (f.result.1 ≡ none) × (now < f.at + s.cache.max_stale))))

  -- The answer of the first critical section.
  abbrev Answered : System M → Key → ℕ → Begin M × Cache M → Type 0
  Answered s k now (wait n, c) = Unit
  Answered s k now (fetch n, c) = Unit
  Answered s k now (answer (none, err), c) = Unit
  Answered s k now (answer (some r, err), c) = IsBacked s k now r

  backed :
      (s : System M) (k : Key) (now : ℕ) (e : Entry M) (response : Option (ModelsResponse M))
      → e.response ≡ response
      → version_eq e.version (current k.0 s.versions) ≡ true
      → ltb now e.next ≡ true
      → (is_last_good response && not (ltb now (e.fetched + s.cache.max_stale))) ≡ false
      → ResponseFrom s.returned s.cache.ttl k e.version e.fetched e.next response
      → Answered s k now (answer (response, e.failure), s.cache)
  unfolding version_eq is_last_good
  backed s k now e none er ve lt stale h = tt
  backed s k now e (some r) er ve lt stale (f, m, (of, l), b, inl (d, res, le)) =
      (f, m, (of, ground arith), b, inl (d, res, ground arith))
  backed s k now e (some r) er ve lt stale (f, m, (of, l), b, inr (inl (d, le))) =
      (f, m, (of, ground arith), b, inr (inl (d, ground arith)))
  backed s k now e (some r) er ve lt stale (f, m, (of, l), b, inr (inr (d, src, res, at))) = (
    f,
    m,
    (of, ground arith),
    b,
    inr (inr (d, res, ground (arith, text_eq_iff r.source (codes "last-good")))),
  )

  -- In every system that a new cache can come to, a response that `Get` answers without a fetch of its
  -- own has the models that a fetch for the same key brought, one that began under the lifecycle that
  -- is the current one. A response that is not degraded came without an error less than the time to
  -- live ago. One that is degraded came less than the retry interval ago, or came without an error less
  -- than `maxStale` ago.
  pub get_begin-IsBacked :
      {s : System M} (k : Key) (now : ℕ) (r : ModelsResponse M) (err : Option CatalogError)
      (c : Cache M)
      → Reachable s
      → get_begin s.cache s.versions k now ≡ (answer (some r, err), c)
      → IsBacked s k now r
  unfolding get_begin start_fetch
  get_begin-IsBacked {s} k now r err c reach eq = subst (Answered s k now) eq (
      begin_at-cases (Answered s k now) s.cache k (current k.0 s.versions) now
        (entry_at k s.cache.entries) tt (λ n. tt) tt
        (λ e found ve lt stale.
          backed s k now e e.response refl ve lt stale
            ((All-entry_at _ k e s.cache.entries (Reachable-Sound reach) found).3)))
