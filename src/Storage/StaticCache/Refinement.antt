-- ===== src/Storage/StaticCache/Refinement.antt =====
-- A static cache is a map with the times of its values.
use mercado.Prelude.Int.{ℤ, ltb_ℤ}
use mathlib.Core.Path.{subst}
use mercado.Prelude.{
  inl, inr, Bool-cases, String, List, Bool, Option, sym, ◌≡◌, false, if◌then◌else◌, true, refl,
  str_eq, some, [], ◌∷◌, arith, eq_iff,
}
use mercado.Prelude.Results.{Result, ok, err}
use mercado.Storage.StaticCache.{
  StaticCache, CacheEntry, CacheError, get_entry, insert_entry, present, expired, retrieve, save,
  clear, locked, is_there, later, value_of, could_not_acquire_lock, entry_not_found, ℤ,
}

get_entry-insert_entry :
    {T : Type 0} (key : String) (e : CacheEntry T) (es : List (String × CacheEntry T)) (k : String)
    → get_entry k (insert_entry key e es) ≡ (if str_eq key k then some e else get_entry k es)
unfolding get_entry insert_entry
get_entry-insert_entry key e [] k = refl
get_entry-insert_entry key e ((k0, e0) ∷ es) k =
    ground (arith, eq_iff k0 key, eq_iff k0 k, eq_iff key k, get_entry-insert_entry key e es k)

module _ {T : Type 0} (key : String) (value : T) (timestamp : ℤ) (cache : StaticCache T) where
  -- Reading after saving and after clearing, where the lock can be acquired.
  abbrev pub IsMap : Type 0
  IsMap =
      ((save key value timestamp cache).0 ≡ ok tt)
      × ((k : String)
          → (retrieve (save key value timestamp cache).1 k
              ≡ (if str_eq key k then ok value else retrieve cache k))
            × (present (save key value timestamp cache).1 k
                ≡ (if str_eq key k then ok true else present cache k))
            × ((now : ℤ)
                → expired (save key value timestamp cache).1 k now
                  ≡ (if str_eq key k then ok (ltb_ℤ timestamp now) else expired cache k now)))
      × ((clear cache).0 ≡ ok tt)
      × ((k : String)
          → (retrieve (clear cache).1 k ≡ err entry_not_found)
            × (present (clear cache).1 k ≡ ok false)
            × ((now : ℤ) → expired (clear cache).1 k now ≡ ok false))

  -- No operation answers or changes anything.
  abbrev pub IsLockedOut : Type 0
  IsLockedOut =
      (save key value timestamp cache ≡ (err could_not_acquire_lock, cache))
      × (clear cache ≡ (err could_not_acquire_lock, cache))
      × ((k : String)
          → (retrieve cache k ≡ err could_not_acquire_lock)
            × (present cache k ≡ err could_not_acquire_lock)
            × ((now : ℤ) → expired cache k now ≡ err could_not_acquire_lock))

  abbrev pub IsLockedMap : Bool → Type 0
  IsLockedMap true = IsLockedOut
  IsLockedMap false = IsMap

  locked_out : cache.poisoned ≡ true → IsLockedOut
  unfolding save clear retrieve present expired locked
  locked_out p = (rw p refl, rw p refl, (λ k. (rw p refl, rw p refl, λ now. rw p refl)))

  chosen :
      {A : Type 0} (f : Option (CacheEntry T) → Result CacheError A) (b : Bool)
      (x y : Option (CacheEntry T))
      → f (if b then x else y) ≡ (if b then f x else f y)
  chosen f true x y = refl
  chosen f false x y = refl

  kept_map : cache.poisoned ≡ false → IsMap
  unfolding save clear retrieve present expired locked is_there later value_of get_entry
  kept_map p = (
    rw p refl,
    (λ k.
        let e : CacheEntry T = record { value = value; timestamp = timestamp } in
        let found = get_entry-insert_entry key e cache.entries k in
        (
          rw (p, found) (chosen value_of (str_eq key k) (some e) (get_entry k cache.entries)),
          rw (p, found)
              (chosen (λ o. ok (is_there o)) (str_eq key k) (some e) (get_entry k cache.entries)),
          λ now.
              rw (p, found)
                (chosen (λ o. ok (later now o)) (str_eq key k) (some e)
                  (get_entry k cache.entries)),
        )),
    rw p refl,
    (λ k. (rw p refl, rw p refl, λ now. rw p refl)),
  )

  -- A static cache whose lock can be acquired is a map: after saving, the saved key gives the new value,
  -- is present, and is expired exactly after its time, and every other key is as before; after
  -- clearing, no key is there. With a poisoned lock every operation ends in CouldNotAcquireLock and
  -- changes nothing.
  pub cache-IsLockedMap : IsLockedMap cache.poisoned
  cache-IsLockedMap = elim (Bool-cases cache.poisoned) [
    | inl p ↦ subst IsLockedMap (sym p) (locked_out p)
    | inr p ↦ subst IsLockedMap (sym p) (kept_map p)
  ]
