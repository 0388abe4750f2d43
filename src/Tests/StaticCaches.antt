-- ===== src/Tests/StaticCaches.antt =====
-- A static cache with two entries.
use mercado.Prelude.{false, ℕ, ◌≡◌, refl, ◌∷◌, []}
use mercado.Prelude.Results.{ok}
use mercado.Storage.StaticCache.{StaticCache, save, retrieve, expired, get_entry, insert_entry}
use mercado.Storage.StaticCache.Refinement.{cache-IsLockedMap, IsLockedMap}
use mercado.Prelude.Int.{pos}

abbrev two_entries : StaticCache ℕ
two_entries = record {
  entries =
      ("a", record { value = 1; timestamp = pos 10 })
      ∷ ("b", record { value = 2; timestamp = pos 20 })
      ∷ [];
  poisoned = false;
}

replaced : retrieve (save "b" 7 (pos 30) two_entries).1 "b" ≡ ok 7
unfolding retrieve save insert_entry get_entry
replaced = refl

not_expired : expired two_entries "a" (pos 10) ≡ ok false
unfolding expired get_entry
not_expired = refl

cache-IsLockedMap_example : IsLockedMap "b" 7 (pos 30) two_entries false
cache-IsLockedMap_example = cache-IsLockedMap "b" 7 (pos 30) two_entries
