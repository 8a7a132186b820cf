-- ===== src/CatalogCache/Defs.antt =====
-- cache.go: the two critical sections of `Get`, before and behind the fetch. A pointer to an entry is
-- its number, `done` is true while the channel is there, and `clone` copies a value. A model is `M`.
-- The versions are those of catalogstate.
use omnillm.Prelude.{
  is_nil, ℕ, suc, ◌+◌, ◌*◌, Bool, true, false, not, ◌&&◌, Option, none, some, List, [], ◌∷◌, Text,
  codes, text_eq, ltb, ◌==◌, is_some, if◌then◌else◌,
}
use omnillm.Registry.Defs.{Version, current}

-- `RetryInterval`, in nanoseconds.
abbrev pub retry_interval : ℕ
retry_interval = 30 * 1000000000

-- `types.ModelsResponse`
pub record ModelsResponse (M : Type 0) : Type 0 where
  pub models : List M
  pub object : Text
  pub degraded : Bool
  pub source : Text

-- The errors: `TransientError`, any other error of the fetch, the two of `Get` itself.
pub data CatalogError : Type 0 where
  transient : ℕ → CatalogError
  fetch_error : Text → CatalogError
  catalog_changed : CatalogError
  no_usable_models : CatalogError

abbrev pub Fetched : Type 0 → Type 0
Fetched M = Option (ModelsResponse M) × Option CatalogError

-- `entry`
pub record Entry (M : Type 0) : Type 0 where
  pub ident : ℕ
  pub version : Version
  pub response : Option (ModelsResponse M)
  pub good : Option (ModelsResponse M)
  pub failure : Option CatalogError
  pub fetched : ℕ
  pub next : ℕ
  pub done : Bool

-- `key`
abbrev pub Key : Type 0
Key = Text × Text

unfoldable pub key_eq : Key → Key → Bool
key_eq (id, kind) (id', kind') = text_eq id id' && text_eq kind kind'

unfoldable pub version_eq : Version → Version → Bool
version_eq v w = v.lifecycle == w.lifecycle && v.refresh == w.refresh

-- `Cache`; `next_ident` numbers the entries that are made.
pub record Cache (M : Type 0) : Type 0 where
  pub entries : List (Key × Entry M)
  pub ttl : ℕ
  pub max_stale : ℕ
  pub next_ident : ℕ

-- `New`
unfoldable pub new_catalog_cache : {M : Type 0} → ℕ → ℕ → Cache M
new_catalog_cache ttl max_stale = record {
  entries = [];
  ttl = ttl;
  max_stale = max_stale;
  next_ident = 0;
}

-- What the first critical section comes to: waiting for a fetch that is under way, an answer, or a
-- fetch of one's own for a new entry.
pub data Begin (M : Type 0) : Type 0 where
  wait : ℕ → Begin M
  answer : Fetched M → Begin M
  fetch : ℕ → Begin M

-- `errors.As(err, &transient)`
abbrev pub is_transient : Option CatalogError → Bool
is_transient (some (transient status)) = true
is_transient (some (fetch_error t)) = false
is_transient (some catalog_changed) = false
is_transient (some no_usable_models) = false
is_transient none = false

-- The error behind a fetch that gave neither an error nor a usable response.
abbrev pub or_no_usable : Bool → Option CatalogError → Option CatalogError
or_no_usable usable (some x) = some x
or_no_usable true none = none
or_no_usable false none = some no_usable_models

module _ {M : Type 0} where
  unfoldable pub entry_at : Key → List (Key × Entry M) → Option (Entry M)
  entry_at k [] = none
  entry_at k ((j, e) ∷ es) = if key_eq j k then some e else entry_at k es

  unfoldable pub set_entry : Key → Entry M → List (Key × Entry M) → List (Key × Entry M)
  set_entry k e [] = (k, e) ∷ []
  set_entry k e ((j, f) ∷ es) = if key_eq j k then (k, e) ∷ es else (j, f) ∷ set_entry k e es

  -- A response that stands in for a fetch that failed.
  unfoldable pub is_last_good : Option (ModelsResponse M) → Bool
  is_last_good none = false
  is_last_good (some r) = r.degraded && text_eq r.source (codes "last-good")

  -- The entry that starts a fetch; what was good under the same lifecycle is kept.
  unfoldable pub pending_entry : ℕ → Version → Option (Entry M) → Entry M
  pending_entry ident version none = record {
    ident = ident;
    version = version;
    response = none;
    good = none;
    failure = none;
    fetched = 0;
    next = 0;
    done = true;
  }
  pending_entry ident version (some previous) = record {
    ident = ident;
    version = version;
    response = none;
    good = if previous.version.lifecycle == version.lifecycle then previous.good else none;
    failure = none;
    fetched = if previous.version.lifecycle == version.lifecycle then previous.fetched else 0;
    next = 0;
    done = true;
  }

  unfoldable pub start_fetch : Cache M → Key → Version → Option (Entry M) → Begin M × Cache M
  unfolding pending_entry set_entry
  start_fetch c k version previous = (
    fetch c.next_ident,
    record c {
      entries = set_entry k (pending_entry c.next_ident version previous) c.entries;
      next_ident = suc c.next_ident;
    },
  )

  -- The first critical section of `Get`, by the entry of the key.
  unfoldable pub begin_at : Cache M → Key → Version → ℕ → Option (Entry M) → Begin M × Cache M
  unfolding start_fetch is_last_good
  begin_at c k version now none = start_fetch c k version none
  begin_at c k version now (some e) =
      if not (version_eq e.version version)
      then start_fetch c k version (some e)
      else if e.done
      then (wait e.ident, c)
      else if not (ltb now e.next)
      then start_fetch c k version (some e)
      else if is_last_good e.response && not (ltb now (e.fetched + c.max_stale))
      then (answer (none, some (transient 0)), c)
      else (answer (e.response, e.failure), c)

  unfoldable pub get_begin : Cache M → List (Text × Version) → Key → ℕ → Begin M × Cache M
  unfolding begin_at entry_at
  get_begin c versions k now = begin_at c k (current k.0 versions) now (entry_at k c.entries)

  abbrev pub is_usable : Option (ModelsResponse M) → Bool
  is_usable none = false
  is_usable (some r) = not (is_nil r.models)

  abbrev pub is_degraded : Option (ModelsResponse M) → Bool
  is_degraded none = false
  is_degraded (some r) = r.degraded

  abbrev pub as_degraded : Option (ModelsResponse M) → Option (ModelsResponse M)
  as_degraded none = none
  as_degraded (some r) = some (record r { degraded = true })

  -- A fetch that failed: the last good response stands in for it, if it may; by what is kept as good.
  unfoldable pub fall_back : Cache M → ℕ → Entry M → Option (ModelsResponse M) → Fetched M → Entry M
  fall_back c now pending none (response, err) = record pending {
    response = as_degraded response;
    good = none;
    failure = or_no_usable (is_usable response) err;
    next = now + retry_interval;
    done = false;
  }
  fall_back c now pending (some g) (response, err) =
      if is_transient err && ltb 0 c.max_stale && ltb now (pending.fetched + c.max_stale)
      then record pending {
        response = some (record g { degraded = true; source = codes "last-good" });
        failure = none;
        next = now + retry_interval;
        done = false;
      }
      else record pending {
        response = as_degraded response;
        good = none;
        failure = or_no_usable (is_usable response) err;
        next = now + retry_interval;
        done = false;
      }

  -- The entry behind its fetch.
  unfoldable pub settle : Cache M → ℕ → Entry M → Fetched M → Entry M
  unfolding fall_back
  settle c now pending (response, err) =
      if not (is_some err) && is_usable response && not (is_degraded response)
      then record pending {
        response = response;
        good = response;
        failure = err;
        fetched = now;
        next = now + c.ttl;
        done = false;
      }
      else fall_back c now pending pending.good (response, err)

  -- The second critical section of `Get`, behind a fetch that began at `began` for the entry of that
  -- number; `version` is the current one, and the last argument the entry of the key.
  unfoldable pub finish_at :
      Cache M → Key → Version → Version → ℕ → ℕ → Fetched M → Option (Entry M) → Fetched M × Cache M
  unfolding settle set_entry
  finish_at c k version began now ident result none = ((none, some catalog_changed), c)
  finish_at c k version began now ident result (some e) =
      if not (e.ident == ident)
      then ((none, some catalog_changed), c)
      else if not (version_eq version began)
      then (
        (none, some catalog_changed),
        record c { entries = set_entry k (record e { done = false }) c.entries },
      )
      else (let settled = settle c now e result in
          (
            (settled.response, settled.failure),
            record c { entries = set_entry k settled c.entries },
          ))

  unfoldable pub get_finish :
      Cache M → List (Text × Version) → Key → Version → ℕ → ℕ → Fetched M → Fetched M × Cache M
  unfolding finish_at entry_at
  get_finish c versions k began now ident result =
      finish_at c k (current k.0 versions) began now ident result (entry_at k c.entries)
