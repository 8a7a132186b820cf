-- ===== src/Tests/Affinity.antt =====
-- Runs of the affinity cache, and its theorems at small caches.
use omnillm.Prelude.{
  ◌≡◌, refl, inr, some, none, [], ◌∷◌, Text, arith, codes, lookup, insert, delete, member, text_eq,
  pos, true,
}
use omnillm.Affinity.Bounds
use omnillm.Affinity.Bounds.{IsValid}
use omnillm.Affinity.Cache.{Config, Cache, new_cache, lookup_pin, record_pin, evict}
use omnillm.Affinity.Pins

abbrev a : Text
a = codes "affinity:v1:a"

abbrev b : Text
b = codes "affinity:v1:b"

abbrev small : Config
small = record { enabled = true; ttl = pos 10; max_entries = pos 1; include_user_id = true }

-- The key of `a` has expired and left its place in the order; `b` fills the cache.
abbrev stale : Cache
stale = record {
  enabled = true;
  ttl = 10;
  max_entries = 1;
  include_user_id = true;
  entries = (b, record { instance_id = codes "copilot"; expires_at = 30 }) ∷ [];
  order = a ∷ b ∷ [];
  hits = 0;
  misses = 1;
}

-- The two keys are pinned, the first is read after its time, and pinned again.
stale_run :
    (lookup_pin
      (record_pin
        (record_pin
          (lookup_pin (record_pin (new_cache small) (some a) (codes "x") 1) (some a) 20).1
          (some b)
          (codes "copilot")
          20)
        (some a)
        (codes "x")
        21)
      (some a)
      22).0
    ≡ none
unfolding new_cache lookup_pin record_pin evict lookup insert delete text_eq
stale_run = refl

new_cache-IsValid_example : IsValid (new_cache small)
new_cache-IsValid_example = Bounds.new_cache-IsValid small

record_pin-IsValid_example : IsValid (record_pin (new_cache small) (some a) (codes "x") 5)
record_pin-IsValid_example =
    Bounds.record_pin-IsValid (new_cache small) (some a) (codes "x") 5
      (Bounds.new_cache-IsValid small)

lookup_pin-record_pin_example :
    (lookup_pin (record_pin (new_cache small) (some a) (codes "x") 5) (some a) 15).0
    ≡ some (codes "x")
unfolding new_cache member
lookup_pin-record_pin_example =
    Pins.lookup_pin-record_pin (new_cache small) a (codes "x") 5 15 (Bounds.new_cache-IsValid small)
      refl (λ e. cc) (inr refl) (omega arith)

stale-IsValid : IsValid stale
unfolding lookup member text_eq
stale-IsValid = record {
  positive = omega arith;
  is_map = (refl, tt);
  covered = λ k h. ground arith;
  bounded = omega arith;
}

record_pin_stale_example :
    (lookup_pin (record_pin stale (some a) (codes "x") 21) (some a) 22).0 ≡ none
unfolding lookup text_eq
record_pin_stale_example =
    Pins.record_pin_stale stale a (codes "x") (b ∷ []) 21 22 stale-IsValid refl refl refl
