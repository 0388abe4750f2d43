-- ===== src/Redis/Deletes.antt =====
-- What `delete_key` does when Redis answers.
use mercado.Prelude.Results.{ok}
use mercado.Prelude.{Option, String, ◌≡◌, none, some, arith, refl}
use mercado.Redis.Laws.{KeyLaws, removed, IsDeleted}
use mercado.Prelude.Int.{ℤ}
use mercado.Redis.Commands.{RedisConnectionPool, delete_key}
use mathlib.Core.Path.{subst}
use mercado.Redis.Replies.{string, null, integer, other, del_from_value, FredValue, DelReply}

del_from_value-removed :
    (n : ℤ) (before : Option String)
    → n ≡ removed before
    → (reply : DelReply) × (del_from_value (integer n) ≡ ok reply)
unfolding del_from_value
del_from_value-removed n none e = rw e (_, refl)
del_from_value-removed n (some v) e = rw e (_, refl)

module _ {W : Type 0} (conn : RedisConnectionPool W) (laws : KeyLaws conn.pool) where
  delete-outcome :
      (key : String) (w : W) (reply : FredValue)
      → (conn.pool.del key w).0 ≡ ok reply
      → IsDeleted key (laws.value w) (laws.value (conn.pool.del key w).1) (ok reply)
  delete-outcome key w reply e =
      subst (IsDeleted key (laws.value w) (laws.value (conn.pool.del key w).1)) e
        (laws.delete key w)

  pub delete_key-deletes :
      (key : String) (w : W) (reply : FredValue)
      → (conn.pool.del key w).0 ≡ ok reply
      → ((answer : DelReply) × (delete_key conn key w ≡ (ok answer, (conn.pool.del key w).1)))
        × (laws.value (conn.pool.del key w).1 key ≡ none)
  unfolding delete_key
  delete_key-deletes key w (integer n) e =
      let (number, gone, elsewhere) = delete-outcome key w (integer n) e in
      let (answer, is_answer) = del_from_value-removed n (laws.value w key) number in
      ((answer, ground (arith, e, is_answer)), gone)
  delete_key-deletes key w (string s) e = absurd (delete-outcome key w (string s) e)
  delete_key-deletes key w null e = absurd (delete-outcome key w null e)
  delete_key-deletes key w other e = absurd (delete-outcome key w other e)
