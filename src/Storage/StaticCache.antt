-- ===== src/Storage/StaticCache.antt =====
-- `StaticCache` of crates/common_utils/src/static_cache.rs: a map behind a lock. The lock is poisoned after a
-- holder has panicked, and is not acquired any more.
pub mod Refinement
use mercado.Prelude.Int.{ℤ, ltb_ℤ}
use mercado.Prelude.{
  List, Option, String, [], if◌then◌else◌, Bool, false, none, some, ◌∷◌, str_eq, true,
}
use mercado.Prelude.Results.{Result, ok, err, ok_or}

pub record CacheEntry (T : Type 0) : Type 0 where
  pub value : T
  pub timestamp : ℤ

pub data CacheError : Type 0 where
  could_not_acquire_lock entry_not_found : CacheError

-- The pairs of the `FxHashMap`, with one for a key.
pub record StaticCache (T : Type 0) : Type 0 where
  pub entries : List (String × CacheEntry T)
  pub poisoned : Bool

module _ {T : Type 0} where
  unfoldable pub new_cache : StaticCache T
  new_cache = record { entries = []; poisoned = false }

  -- `FxHashMap::get` and `insert`
  unfoldable pub get_entry : String → List (String × CacheEntry T) → Option (CacheEntry T)
  get_entry key [] = none
  get_entry key ((k, e) ∷ es) = let rest = get_entry key es in if str_eq k key then some e else rest

  unfoldable pub insert_entry :
      String → CacheEntry T → List (String × CacheEntry T) → List (String × CacheEntry T)
  insert_entry key entry [] = (key, entry) ∷ []
  insert_entry key entry ((k, e) ∷ es) =
      let rest = insert_entry key entry es in
      if str_eq k key then (k, entry) ∷ es else (k, e) ∷ rest

  is_there : Option (CacheEntry T) → Bool
  is_there none = false
  is_there (some entry) = true

  later : ℤ → Option (CacheEntry T) → Bool
  later timestamp none = false
  later timestamp (some entry) = ltb_ℤ entry.timestamp timestamp

  value_of : Option (CacheEntry T) → Result CacheError T
  value_of none = err entry_not_found
  value_of (some entry) = ok entry.value

  -- What is done with the map once the lock is acquired.
  locked : {A : Type 0} → StaticCache T → Result CacheError A → Result CacheError A
  locked cache r = if cache.poisoned then err could_not_acquire_lock else r

  unfoldable pub present : StaticCache T → String → Result CacheError Bool
  unfolding locked is_there
  present cache key = locked cache (ok (is_there (get_entry key cache.entries)))

  unfoldable pub expired : StaticCache T → String → (timestamp : ℤ) → Result CacheError Bool
  unfolding locked later
  expired cache key timestamp = locked cache (ok (later timestamp (get_entry key cache.entries)))

  unfoldable pub retrieve : StaticCache T → String → Result CacheError T
  unfolding locked value_of
  retrieve cache key = locked cache (value_of (get_entry key cache.entries))

  unfoldable pub save :
      String → T → (timestamp : ℤ) → StaticCache T → Result CacheError (Unit {0}) × StaticCache T
  save key value timestamp cache = if cache.poisoned then (err could_not_acquire_lock, cache) else (
    ok tt,
    record cache {
      entries = insert_entry key (record { value = value; timestamp = timestamp }) cache.entries;
    },
  )

  unfoldable pub clear : StaticCache T → Result CacheError (Unit {0}) × StaticCache T
  clear cache =
      if cache.poisoned
      then (err could_not_acquire_lock, cache)
      else (ok tt, record cache { entries = [] })
