-- ===== src/Redis/Laws.antt =====
-- What the code relies on of Redis: the documented effect of SET NX, EXPIRE and DEL on the keys. After
-- an error the command may have been run or not.
use mercado.Prelude.Int.{ℤ, pos, ◌≤ℤ◌}
use mercado.Prelude.Results.{Result, ok, err}
use mercado.Prelude.{String, Option, ◌≢◌, true, ◌≡◌, none, some}
use mercado.Redis.Fred.{Fred}
use mercado.Redis.Replies.{FredValue, RedisErrorKind}

-- The keys other than one are as before.
abbrev pub IsElsewhereSame : String → (before after : String → Option String) → Type 0
IsElsewhereSame key before after = (k : String) → k ≢ key → after k ≡ before k

-- `SET key value NX` answers OK and sets a key that was not there, or answers null.
abbrev pub IsSetIfAbsent :
    String
    → String
    → (before after : String → Option String) → Result RedisErrorKind FredValue
    → Type 0
IsSetIfAbsent key value before after (ok (FredValue.string s)) =
    (before key ≡ none) × (after key ≡ some value) × IsElsewhereSame key before after
IsSetIfAbsent key value before after (ok FredValue.null) =
    (before key ≢ none) × ((k : String) → after k ≡ before k)
IsSetIfAbsent key value before after (ok reply) = ⊥
IsSetIfAbsent key value before after (err e) =
    (before key ≢ none → after key ≡ before key) × IsElsewhereSame key before after

abbrev pub removed : Option String → ℤ
removed none = pos 0
removed (some v) = pos 1

-- `DEL key` answers the number of keys that it has removed.
abbrev pub IsDeleted :
    String → (before after : String → Option String) → Result RedisErrorKind FredValue → Type 0
IsDeleted key before after (ok (FredValue.integer n)) =
    (n ≡ removed (before key)) × (after key ≡ none) × IsElsewhereSame key before after
IsDeleted key before after (ok reply) = ⊥
IsDeleted key before after (err e) = IsElsewhereSame key before after

pub record KeyLaws {W : Type 0} (pool : Fred W) : Type 0 where
  -- the value of a key that has not expired
  pub value : W → String → Option String
  pub set_if_absent :
      (key v : String) (seconds : ℤ) (w : W)
      → let (r, w') = pool.set key v seconds true w in IsSetIfAbsent key v (value w) (value w') r
  -- A positive time to live keeps the value.
  pub expire_keeps :
      (key : String) (seconds : ℤ) (w : W) (k : String)
      → pos 1 ≤ℤ seconds
      → value (pool.expire key seconds w).1 k ≡ value w k
  pub delete :
      (key : String) (w : W) → let (r, w') = pool.del key w in IsDeleted key (value w) (value w') r
