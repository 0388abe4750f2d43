-- ===== src/Redis/Fred.antt =====
-- The commands that the fred crate sends to the Redis server, as the code uses them: neither is code of
-- the repository, and a value of `Fred` stands for both.
use mercado.Redis.Replies.{RedisErrorKind, FredValue, Xid, StreamCapKind, StreamCapTrim}
use mercado.Prelude.Exec.{Exec}
use mercado.Prelude.Int.{ℤ}
use mercado.Prelude.{List, String, Bool, Option, ℕ}

-- Entries of a stream: an id, and the fields.
abbrev pub Entries : Type 0 → Type 0
Entries V = List (String × List (String × V))

pub record Fred (W : Type 0) : Type 0 where
  -- SET key value EX seconds [NX]
  pub set :
      String → String → (seconds : ℤ) → (only_if_absent : Bool) → Exec W RedisErrorKind FredValue
  -- GET key
  pub get : String → Exec W RedisErrorKind (Option String)
  -- DEL key
  pub del : String → Exec W RedisErrorKind FredValue
  -- EXPIRE key seconds
  pub expire : String → (seconds : ℤ) → Exec W RedisErrorKind (Unit {0})
  -- XADD stream id fields
  pub xadd : String → Xid → List (String × String) → Exec W RedisErrorKind (Unit {0})
  -- XDEL stream ids
  pub xdel : String → List String → Exec W RedisErrorKind ℕ
  -- XTRIM stream MINID or MAXLEN, = or ~, a threshold
  pub xtrim : String → StreamCapKind → StreamCapTrim → String → Exec W RedisErrorKind ℕ
  -- XACK stream group ids
  pub xack : String → String → List String → Exec W RedisErrorKind ℕ
  -- XREAD COUNT count STREAMS stream id: entries by stream
  pub xread_map :
      (count : Option ℕ) → String → String → Exec W RedisErrorKind (List (String × Entries String))
  -- XREADGROUP GROUP group consumer COUNT count STREAMS stream id
  pub xreadgroup_map :
      (group consumer : String)
      → (count : Option ℕ) → String
      → Xid
      → Exec W RedisErrorKind (List (String × Entries (Option String)))
  -- XGROUP CREATE stream group id MKSTREAM
  pub xgroup_create : String → String → Xid → Exec W RedisErrorKind (Unit {0})
