-- ===== src/CatalogCache/Steps.antt =====
-- The steps of a catalog cache keep its entries backed.
use omnillm.Prelude.{
  ℕ, suc, ◌+◌, ◌==◌, true, false, Option, none, some, List, [], ◌∷◌, ◌≡◌, ◌⊎◌, inl, inr, refl, sym,
  subst, ap, ◌∙◌, codes, All, arith, index_lookup, index_insert, index_lookup-index_insert,
  Bool-cases, if_cases, if◌then◌else◌, not, ltb, ◌&&◌,
}
use omnillm.Registry.Defs.{Version, current}
use omnillm.CatalogCache.Defs.{
  Cache, Entry, Key, version_eq, ModelsResponse, CatalogError, Fetched, Begin, wait, answer,
  transient, entry_at, pending_entry, start_fetch, begin_at, get_begin, settle, fall_back,
  finish_at, as_degraded, is_last_good, retry_interval,
}
use omnillm.CatalogCache.Runs.{Discovery, System, after_begin, begin_step}
use mathlib.Core.List.{Memᴰ}
use omnillm.CatalogCache.Backing.{
  true-not, began-lifecycle, Brought, GoodFrom, ResponseFrom, Sound, grow-GoodFrom, grow-Sound,
  begin-Sound, All-set_entry, All-entry_at,
}

module _ {M : Type 0} where
  same_lifecycle-GoodFrom :
      (fs : List (Discovery M)) (k : Key) (v w : Version) (t : ℕ) (g : Option (ModelsResponse M))
      → GoodFrom fs k v t g
      → v.lifecycle ≡ w.lifecycle
      → GoodFrom fs k w t g
  same_lifecycle-GoodFrom fs k v w t none h e = tt
  same_lifecycle-GoodFrom fs k v w t (some g) (f, m, (of, l), a, b, c) e =
      (f, m, (of, l ∙ e), a, b, c)

  pending_entry-Sound :
      (fs : List (Discovery M)) (bs : List (ℕ × (Key × Version))) (n ttl : ℕ) (k : Key)
      (v : Version) (previous : Option (Entry M))
      → ((e : Entry M) → previous ≡ some e → Sound fs bs n ttl (k, e))
      → Sound fs (index_insert n (k, v) bs) (suc n) ttl (k, pending_entry n v previous)
  unfolding pending_entry
  pending_entry-Sound fs bs n ttl k v none h =
      (omega arith, ground (arith, index_lookup-index_insert n n (k, v) bs), tt, tt)
  pending_entry-Sound fs bs n ttl k v (some e) h = (
    omega arith,
    ground (arith, index_lookup-index_insert n n (k, v) bs),
    kept (Bool-cases (e.version.lifecycle == v.lifecycle)) (h e refl),
    tt,
  )
    where
      kept :
          (e.version.lifecycle == v.lifecycle ≡ true) ⊎ (e.version.lifecycle == v.lifecycle ≡ false)
          → Sound fs bs n ttl (k, e)
          → GoodFrom fs k v
              (if e.version.lifecycle == v.lifecycle then e.fetched else 0)
              (if e.version.lifecycle == v.lifecycle then e.good else none)
      kept (inl y) (lt, at, good, resp) =
          rw y (same_lifecycle-GoodFrom fs k e.version v e.fetched e.good good (ground arith))
      kept (inr n) d = rw n tt

  -- A system whose entries are sound.
  abbrev pub SoundSystem : System M → Type 0
  SoundSystem s = All (Sound s.returned s.begun s.cache.next_ident s.cache.ttl) s.cache.entries

  abbrev SoundBegin : System M → Key → Begin M × Cache M → Type 0
  SoundBegin s k (b, c) = SoundSystem (after_begin s k b c)

  start_fetch-Sound :
      (s : System M) (k : Key) (previous : Option (Entry M))
      → ((e : Entry M)
          → previous ≡ some e
          → Sound s.returned s.begun s.cache.next_ident s.cache.ttl (k, e))
      → SoundSystem s
      → SoundBegin s k (start_fetch s.cache k (current k.0 s.versions) previous)
  unfolding start_fetch after_begin
  start_fetch-Sound s k previous h all =
      All-set_entry _ k _ s.cache.entries (begin-Sound _ _ _ _ _ s.cache.entries all) (
        pending_entry-Sound s.returned s.begun s.cache.next_ident s.cache.ttl k
          (current k.0 s.versions) previous h)

  -- The four things that the first critical section comes to.
  pub begin_at-cases :
      (P : Begin M × Cache M → Type 0) (c : Cache M) (k : Key) (v : Version) (now : ℕ)
      (previous : Option (Entry M))
      → P (start_fetch c k v previous)
      → ((n : ℕ) → P (wait n, c))
      → P (answer (none, some (transient 0)), c)
      → ((e : Entry M)
          → previous ≡ some e
          → version_eq e.version v ≡ true
          → ltb now e.next ≡ true
          → (is_last_good e.response && not (ltb now (e.fetched + c.max_stale))) ≡ false
          → P (answer (e.response, e.failure), c))
      → P (begin_at c k v now previous)
  unfolding begin_at
  begin_at-cases P c k v now none p_fetch p_wait p_stale p_answer = p_fetch
  begin_at-cases P c k v now (some e) p_fetch p_wait p_stale p_answer =
      if_cases P _ _ _ (λ _. p_fetch)
        (λ h.
          if_cases P _ _ _ (λ _. p_wait e.ident)
            (λ _.
              if_cases P _ _ _ (λ _. p_fetch)
                (λ h'.
                  if_cases P _ _ _ (λ _. p_stale)
                    (λ h''. p_answer e refl (true-not h) (true-not h') h''))))

  pub begin_step-Sound :
      (s : System M) (k : Key) (now : ℕ) → SoundSystem s → SoundSystem (begin_step s k now)
  unfolding begin_step get_begin after_begin
  begin_step-Sound s k now all =
      begin_at-cases (SoundBegin s k) s.cache k (current k.0 s.versions) now
        (entry_at k s.cache.entries)
        (start_fetch-Sound s k (entry_at k s.cache.entries)
          (λ e eq. All-entry_at _ k e s.cache.entries all eq) all)
        (λ n. all) all (λ e _ _ _ _. all)

  -- The fetch that returns for the entry.
  abbrev discovery : Key → Version → ℕ → Fetched M → Discovery M
  discovery k v now result = record { of = k; began = v; at = now; result = result }

  as_degraded-ResponseFrom :
      (fs : List (Discovery M)) (ttl : ℕ) (k : Key) (v w : Version) (now t : ℕ)
      (response : Option (ModelsResponse M)) (err : Option CatalogError)
      → v.lifecycle ≡ w.lifecycle
      → ResponseFrom
          (discovery k v now (response, err) ∷ fs)
          ttl
          k
          w
          t
          (now + retry_interval)
          (as_degraded response)
  as_degraded-ResponseFrom fs ttl k v w now t none err ev = tt
  as_degraded-ResponseFrom fs ttl k v w now t (some r) err ev = (
    discovery k v now (some r, err),
    Memᴰ.head refl,
    (refl, ev),
    refl,
    inr (inl (refl, omega arith)),
  )

  last_good-ResponseFrom :
      (fs : List (Discovery M)) (ttl : ℕ) (k : Key) (v : Version) (t u : ℕ) (g : ModelsResponse M)
      → GoodFrom fs k v t (some g)
      → ResponseFrom fs ttl k v t u
          (some (record g { degraded = true; source = codes "last-good" }))
  last_good-ResponseFrom fs ttl k v t u g (f, m, for, at, res, deg) = (
    f,
    m,
    for,
    subst (λ x. Brought (record g { degraded = true; source = codes "last-good" }) x.0) (sym res)
        refl,
    inr (inr (refl, refl, ap (λ x. x.1) res, at)),
  )

  fall_back-Sound :
      (c : Cache M) (fs : List (Discovery M)) (bs : List (ℕ × (Key × Version))) (n : ℕ) (k : Key)
      (v : Version) (now : ℕ) (response : Option (ModelsResponse M)) (err : Option CatalogError)
      (e : Entry M) (good : Option (ModelsResponse M))
      → e.good ≡ good
      → v.lifecycle ≡ e.version.lifecycle
      → Sound fs bs n c.ttl (k, e)
      → Sound
          (discovery k v now (response, err) ∷ fs)
          bs
          n
          c.ttl
          (k, fall_back c now e good (response, err))
  unfolding fall_back
  fall_back-Sound c fs bs n k v now response err e none eg ev h =
      (h.0, h.1, tt, as_degraded-ResponseFrom fs c.ttl k v e.version now e.fetched response err ev)
  fall_back-Sound c fs bs n k v now response err e (some g) eg ev h =
      if_cases (λ x. Sound (discovery k v now (response, err) ∷ fs) bs n c.ttl (k, x)) _ _ _
        (λ _. (
          h.0,
          h.1,
          kept,
          last_good-ResponseFrom (discovery k v now (response, err) ∷ fs) c.ttl k e.version
              e.fetched (now + retry_interval) g (subst (GoodFrom _ k e.version e.fetched) eg kept),
        ))
        (λ _. (
          h.0,
          h.1,
          tt,
          as_degraded-ResponseFrom fs c.ttl k v e.version now e.fetched response err ev,
        ))
    where
      kept : GoodFrom (discovery k v now (response, err) ∷ fs) k e.version e.fetched e.good
      kept = grow-GoodFrom (discovery k v now (response, err)) fs k e.version e.fetched e.good h.2

  -- What a fetch settles: `f` is the fetch that returned, of the key and the version of the entry.
  settle-Sound :
      (c : Cache M) (fs : List (Discovery M)) (bs : List (ℕ × (Key × Version))) (n : ℕ) (k : Key)
      (v : Version) (now : ℕ) (response : Option (ModelsResponse M)) (err : Option CatalogError)
      (e : Entry M)
      → v.lifecycle ≡ e.version.lifecycle
      → Sound fs bs n c.ttl (k, e)
      → Sound
          (discovery k v now (response, err) ∷ fs)
          bs
          n
          c.ttl
          (k, settle c now e (response, err))
  unfolding settle
  settle-Sound c fs bs n k v now none none e ev h =
      fall_back-Sound c fs bs n k v now none none e e.good refl ev h
  settle-Sound c fs bs n k v now none (some x) e ev h =
      fall_back-Sound c fs bs n k v now none (some x) e e.good refl ev h
  settle-Sound c fs bs n k v now (some r) (some x) e ev h =
      fall_back-Sound c fs bs n k v now (some r) (some x) e e.good refl ev h
  settle-Sound c fs bs n k v now (some r) none e ev h =
      if_cases (λ x. Sound (discovery k v now (some r, none) ∷ fs) bs n c.ttl (k, x)) _ _ _
        (λ y. (
          h.0,
          h.1,
          (discovery k v now (some r, none), Memᴰ.head refl, (refl, ev), refl, refl, ground arith),
          (
            discovery k v now (some r, none),
            Memᴰ.head refl,
            (refl, ev),
            refl,
            inl (ground arith, refl, omega arith),
          ),
        ))
        (λ _. fall_back-Sound c fs bs n k v now (some r) none e e.good refl ev h)

  -- The system behind the second critical section.
  abbrev SoundFinish : System M → Key → Version → ℕ → Fetched M → Fetched M × Cache M → Type 0
  SoundFinish s k v now result (out, c) =
      SoundSystem (record s { cache = c; returned = discovery k v now result ∷ s.returned })

  pub finish_at-Sound :
      (s : System M) (k : Key) (v : Version) (ident now : ℕ) (result : Fetched M)
      (found : Option (Entry M))
      → index_lookup ident s.begun ≡ some (k, v)
      → ((e : Entry M)
          → found ≡ some e
          → Sound s.returned s.begun s.cache.next_ident s.cache.ttl (k, e))
      → SoundSystem s
      → SoundFinish s k v now result
          (finish_at s.cache k (current k.0 s.versions) v now ident result found)
  unfolding finish_at
  finish_at-Sound s k v ident now result none at h all =
      grow-Sound _ s.returned s.begun s.cache.next_ident s.cache.ttl s.cache.entries all
  finish_at-Sound s k v ident now result (some e) at h all =
      if_cases (SoundFinish s k v now result) (not (e.ident == ident)) _ _ (λ _. grown)
        (λ i.
          if_cases (SoundFinish s k v now result) (not (version_eq (current k.0 s.versions) v)) _ _
            (λ _.
              All-set_entry _ k (record e { done = false }) s.cache.entries grown
                (grow-Sound _ s.returned s.begun s.cache.next_ident s.cache.ttl ((k, e) ∷ [])
                  (h e refl, tt)).0)
            (λ _. All-set_entry _ k _ s.cache.entries grown (
              settle-Sound s.cache s.returned s.begun s.cache.next_ident k v now result.0 result.1 e
                (began-lifecycle s.begun k v e.version ident e.ident (true-not i) ((h e refl).1) at)
                (h e refl))))
    where
      grown :
          All
            (Sound (discovery k v now result ∷ s.returned) s.begun s.cache.next_ident s.cache.ttl)
            s.cache.entries
      grown = grow-Sound _ s.returned s.begun s.cache.next_ident s.cache.ttl s.cache.entries all
