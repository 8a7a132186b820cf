-- ===== src/CatalogCache/Backing.antt =====
-- What backs the entries of a catalog cache: the fetches that their responses came with.
use omnillm.Prelude.{
  ℕ, suc, ◌+◌, ◌≤◌, ◌<◌, ◌==◌, Bool, true, false, Option, none, some, List, [], ◌∷◌, ◌≡◌, ◌⊎◌, inl,
  inr, refl, subst, codes, text_eq_iff, All, arith, index_lookup, index_insert,
  index_lookup-index_insert, Bool-cases, if_cases, not,
}
use omnillm.Registry.Defs.{Version}
use omnillm.CatalogCache.Defs.{
  Entry, Key, key_eq, ModelsResponse, entry_at, set_entry, retry_interval,
}
use omnillm.CatalogCache.Runs.{Discovery}
use mathlib.Core.List.{Memᴰ}

pub true-not : {b : Bool} → not b ≡ false → b ≡ true
true-not {b = true} h = refl
true-not {b = false} h = cc

key_eq-≡ : (j k : Key) → key_eq j k ≡ true → j ≡ k
unfolding key_eq
key_eq-≡ (a, b) (c, d) h = ground (arith, text_eq_iff a c, text_eq_iff b d)

key_eq_refl : (k : Key) → key_eq k k ≡ true
unfolding key_eq
key_eq_refl (a, b) = ground (arith, text_eq_iff a a, text_eq_iff b b)

pub began-lifecycle :
    (bs : List (ℕ × (Key × Version))) (k : Key) (v w : Version) (ident n : ℕ)
    → n == ident ≡ true
    → index_lookup n bs ≡ some (k, w)
    → index_lookup ident bs ≡ some (k, v)
    → v.lifecycle ≡ w.lifecycle
began-lifecycle bs k v w ident n eq h h' = ground arith

module _ {M : Type 0} where
  -- A fetch for the key that began under the lifecycle of the version.
  abbrev pub IsFor : Key → Version → Discovery M → Type 0
  IsFor k v f = (f.of ≡ k) × (f.began.lifecycle ≡ v.lifecycle)

  -- The response brought the models that `r` has, and may have been marked since.
  abbrev pub Brought : ModelsResponse M → Option (ModelsResponse M) → Type 0
  Brought r none = ⊥
  Brought r (some given) = r.models ≡ given.models

  -- What is kept as good came with a fetch without an error, at the time that is noted.
  abbrev pub GoodFrom : List (Discovery M) → Key → Version → ℕ → Option (ModelsResponse M) → Type 0
  GoodFrom fs k v fetched none = Unit
  GoodFrom fs k v fetched (some g) =
      (f : Discovery M) × Memᴰ f fs
      × IsFor k v f
      × (f.at ≡ fetched)
      × (f.result ≡ (some g, none))
      × (g.degraded ≡ false)

  -- The response came with a fetch, and up to the time `next` it is as old as its marks allow: a
  -- fresh one is younger than `ttl`, a degraded one is younger than the retry interval, or it stands in for
  -- a fetch that failed.
  abbrev pub ResponseFrom :
      List (Discovery M) → ℕ → Key → Version → ℕ → ℕ → Option (ModelsResponse M) → Type 0
  ResponseFrom fs ttl k v fetched next none = Unit
  ResponseFrom fs ttl k v fetched next (some r) =
      (f : Discovery M) × Memᴰ f fs
      × IsFor k v f
      × Brought r f.result.0
      × (((r.degraded ≡ false) × (f.result.1 ≡ none) × (next ≤ f.at + ttl))
          ⊎ (((r.degraded ≡ true) × (next ≤ f.at + retry_interval))
              ⊎ ((r.degraded ≡ true)
                  × (r.source ≡ codes "last-good")
                  × (f.result.1 ≡ none)
                  × (f.at ≡ fetched))))

  abbrev pub Sound :
      List (Discovery M) → List (ℕ × (Key × Version)) → ℕ → ℕ → Key × Entry M → Type 0
  Sound fs bs n ttl (k, e) =
      (e.ident < n)
      × (index_lookup e.ident bs ≡ some (k, e.version))
      × GoodFrom fs k e.version e.fetched e.good
      × ResponseFrom fs ttl k e.version e.fetched e.next e.response

  pub grow-GoodFrom :
      (f : Discovery M) (fs : List (Discovery M)) (k : Key) (v : Version) (t : ℕ)
      (g : Option (ModelsResponse M))
      → GoodFrom fs k v t g
      → GoodFrom (f ∷ fs) k v t g
  grow-GoodFrom f fs k v t none h = tt
  grow-GoodFrom f fs k v t (some g) (d, m, a, b, c, e) = (d, Memᴰ.tail m, a, b, c, e)

  grow-ResponseFrom :
      (f : Discovery M) (fs : List (Discovery M)) (ttl : ℕ) (k : Key) (v : Version) (t u : ℕ)
      (g : Option (ModelsResponse M))
      → ResponseFrom fs ttl k v t u g
      → ResponseFrom (f ∷ fs) ttl k v t u g
  grow-ResponseFrom f fs ttl k v t u none h = tt
  grow-ResponseFrom f fs ttl k v t u (some g) (d, m, a, b, c) = (d, Memᴰ.tail m, a, b, c)

  pub grow-Sound :
      (f : Discovery M) (fs : List (Discovery M)) (bs : List (ℕ × (Key × Version))) (n ttl : ℕ)
      (es : List (Key × Entry M))
      → All (Sound fs bs n ttl) es
      → All (Sound (f ∷ fs) bs n ttl) es
  grow-Sound f fs bs n ttl [] h = tt
  grow-Sound f fs bs n ttl ((k, e) ∷ es) ((lt, at, good, resp), h) = (
    (
      lt,
      at,
      grow-GoodFrom f fs k e.version e.fetched e.good good,
      grow-ResponseFrom f fs ttl k e.version e.fetched e.next e.response resp,
    ),
    grow-Sound f fs bs n ttl es h,
  )

  pub begin-Sound :
      (fs : List (Discovery M)) (bs : List (ℕ × (Key × Version))) (n ttl : ℕ) (x : Key × Version)
      (es : List (Key × Entry M))
      → All (Sound fs bs n ttl) es
      → All (Sound fs (index_insert n x bs) (suc n) ttl) es
  begin-Sound fs bs n ttl x [] h = tt
  begin-Sound fs bs n ttl x ((k, e) ∷ es) ((lt, at, good, resp), h) = (
    (omega arith, ground (arith, index_lookup-index_insert n e.ident x bs), good, resp),
    begin-Sound fs bs n ttl x es h,
  )

  pub All-set_entry :
      (P : Key × Entry M → Type 0) (k : Key) (e : Entry M) (es : List (Key × Entry M))
      → All P es
      → P (k, e)
      → All P (set_entry k e es)
  unfolding set_entry
  All-set_entry P k e [] h p = (p, tt)
  All-set_entry P k e ((j, d) ∷ es) (q, h) p =
      if_cases (All P) (key_eq j k) ((k, e) ∷ es) ((j, d) ∷ set_entry k e es) (λ _. (p, h))
        (λ _. (q, All-set_entry P k e es h p))

  pub All-entry_at :
      (P : Key × Entry M → Type 0) (k : Key) (e : Entry M) (es : List (Key × Entry M))
      → All P es
      → entry_at k es ≡ some e
      → P (k, e)
  unfolding entry_at
  All-entry_at P k e [] h eq = cc
  All-entry_at P k e ((j, d) ∷ es) (q, h) eq = elim (Bool-cases (key_eq j k)) [
    | inl t ↦ subst (λ x. P (k, x)) (ground arith) (subst (λ i. P (i, d)) (key_eq-≡ j k t) q)
    | inr f ↦ All-entry_at P k e es h (ground arith)
  ]
