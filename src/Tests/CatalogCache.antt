-- ===== src/Tests/CatalogCache.antt =====
-- Runs of a catalog cache, and its theorem behind a fetch that failed for a while.
use omnillm.Prelude.{
  ◌≡◌, refl, ◌∷◌, [], true, false, some, none, Text, codes, lookup, index_insert, index_lookup,
  text_eq,
}
use omnillm.Registry.Defs.{current}
use omnillm.CatalogCache.Defs.{
  new_catalog_cache, begin_at, entry_at, start_fetch, pending_entry, set_entry, key_eq, version_eq,
  finish_at, settle, fall_back, is_last_good, ModelsResponse, Key, transient, answer, get_begin,
  get_finish,
}
use omnillm.CatalogCache.Runs.{
  System, Reachable, started, began, finished, start, begin_step, finish_step, after_begin,
}
use omnillm.CatalogCache.Provenance.{IsBacked}
use omnillm.CatalogCache.Provenance

abbrev found : ModelsResponse Text
found = record { models = codes "m" ∷ []; object = codes "list"; degraded = false; source = [] }

abbrev of : Key
of = (codes "p", codes "catalog")

-- A fetch that succeeds at 10, and one that fails for a while at 120.
abbrev failed_once : System Text
failed_once =
    finish_step
      (begin_step
        (finish_step (begin_step (start 100 1000 []) of 5) of
          (record { lifecycle = 0; refresh = 0 }) 0 10 (some found, none))
        of 115)
      of (record { lifecycle = 0; refresh = 0 }) 1 120 (none, some (transient 503))

failed_once_run : Reachable failed_once
unfolding start new_catalog_cache begin_step get_begin begin_at entry_at start_fetch pending_entry
    set_entry after_begin current lookup index_insert index_lookup key_eq text_eq version_eq
    finish_step get_finish finish_at settle fall_back is_last_good
failed_once_run =
    finished of (record { lifecycle = 0; refresh = 0 }) 1 120 (none, some (transient 503)) refl
      (began of 115 (
        finished of (record { lifecycle = 0; refresh = 0 }) 0 10 (some found, none) refl
          (began of 5 (started 100 1000 []))))

-- What stands in for the fetch that failed.
abbrev last_good : ModelsResponse Text
last_good = record found { degraded = true; source = codes "last-good" }

get_begin_example :
    get_begin failed_once.cache failed_once.versions of 130
    ≡ (answer (some last_good, none), failed_once.cache)
unfolding start new_catalog_cache begin_step get_begin begin_at entry_at start_fetch pending_entry
    set_entry after_begin current lookup index_insert index_lookup key_eq text_eq version_eq
    finish_step get_finish finish_at settle fall_back is_last_good
get_begin_example = refl

-- Behind the bound on its age a temporary failure is answered.
get_begin_later :
    get_begin failed_once.cache failed_once.versions of 2000
    ≡ (answer (none, some (transient 0)), failed_once.cache)
unfolding start new_catalog_cache begin_step get_begin begin_at entry_at start_fetch pending_entry
    set_entry after_begin current lookup index_insert index_lookup key_eq text_eq version_eq
    finish_step get_finish finish_at settle fall_back is_last_good
get_begin_later = refl

get_begin-IsBacked_example : IsBacked failed_once of 130 last_good
get_begin-IsBacked_example =
    Provenance.get_begin-IsBacked of 130 last_good none failed_once.cache failed_once_run
      get_begin_example
