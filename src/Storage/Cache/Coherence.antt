-- ===== src/Storage/Cache/Coherence.antt =====
-- A read after a write with `redact_cache` is not answered from a cache.
use mercado.Redis.Json.{get_and_deserialize_key, serialize_and_set_key}
use mercado.Redis.Deletes.{delete_key-deletes}
use mercado.Redis.Replies.{RedisErrorKind}
use mercado.Prelude.Exec.{Exec}
use mercado.Errors.{RedisError, StorageError, get_failed, delete_failed}
use mercado.Prelude.Results.{ok, err, Result-cases}
use mercado.Prelude.{◌≡◌, String, Option, ◌⊎◌, none, some, inr, arith, inl, ◌∙◌, ap}
use mercado.Redis.Laws.{KeyLaws}
use mercado.Storage.Cache.{
  Cacheable, Connect, Moka, get_or_populate_redis, ok, redact_cache, Exec, RedisError, or_populate,
  get_data_set_redis, get_or_populate_in_memory, populate_in_memory, get_val,
}
use mercado.Redis.Commands.{RedisConnectionPool, delete_key, get_key}
use mercado.Redis.Fred.{Fred}

-- What the code relies on of moka and of GET, beside the laws on keys.
pub record CacheLaws {W Dyn : Type 0} (pool : Fred W) (cache : Moka W Dyn) (keys : KeyLaws pool)
    : Type 0 where
  -- the value that a key has in memory
  pub cached : W → String → Option Dyn
  pub get_missing : (key : String) (w : W) → cached w key ≡ none → (cache.get key w).0 ≡ none
  -- Neither cache changes the other.
  pub get_keeps :
      (key : String) (w : W) (k : String) → keys.value (cache.get key w).1 k ≡ keys.value w k
  pub del_keeps :
      (key : String) (w : W) (k : String) → cached w k ≡ none → cached (pool.del key w).1 k ≡ none
  pub invalidates : (key : String) (w : W) → cached (cache.invalidate key w) key ≡ none
  -- GET answers the value of the key.
  pub get_value :
      (key : String) (w : W) (reply : Option String)
      → (pool.get key w).0 ≡ ok reply
      → reply ≡ keys.value w key

-- The store answers its connection or an error, and changes nothing, as RedisStore::get_redis_conn does.
abbrev pub IsConnect : {W : Type 0} → RedisConnectionPool W → Connect W → Type 0
IsConnect {W} conn connect =
    (w : W) → (connect w ≡ (ok conn, w)) ⊎ ((e : RedisError) × (connect w ≡ (err e, w)))

delete_key-fails :
    {W : Type 0} (conn : RedisConnectionPool W) (key : String) (w : W) (e : RedisErrorKind)
    → (conn.pool.del key w).0 ≡ err e
    → delete_key conn key w ≡ (err delete_failed, (conn.pool.del key w).1)
unfolding delete_key
delete_key-fails conn key w e h = ground (arith, h)

module _ {W Dyn : Type 0} (conn : RedisConnectionPool W) (connect : Connect W)
    (is_connect : IsConnect conn connect) (cache : Moka W Dyn) (keys : KeyLaws conn.pool)
    (laws : CacheLaws conn.pool cache keys) where
  pub redact_cache-removes :
      {T : Type 0} (key : String) (fun : Exec W StorageError T) (w : W) (d : T)
      → (redact_cache connect key fun (some cache) w).0 ≡ ok d
      → let w' = (redact_cache connect key fun (some cache) w).1 in
        (keys.value w' key ≡ none) × (laws.cached w' key ≡ none)
  unfolding redact_cache
  redact_cache-removes key fun w d h = elim (Result-cases (fun w).0) [
    | inr (e, failed) ↦ absurd (ground (arith, failed))
    | inl (a, fetched) ↦
        let w1 = cache.invalidate key (fun w).1 in
        elim (is_connect w1) [
          | inr (e, failed) ↦ absurd (ground (arith, fetched, failed))
          | inl connected ↦ elim (Result-cases (conn.pool.del key w1).0) [
            | inr (e, failed) ↦
                absurd (ground (arith, fetched, connected, delete_key-fails conn key w1 e failed))
            | inl (reply, answered) ↦
                let ((answer, deleted), gone) =
                  delete_key-deletes conn keys key w1 reply answered in
                rw (fetched, connected, deleted)
                  (gone, laws.del_keeps key w1 key (laws.invalidates key (fun w).1))
          ]
        ]
  ]

-- A key that is not there is looked up as NotFound.
missing_key :
    {W Dyn T : Type 0} (C : Cacheable Dyn T) (conn : RedisConnectionPool W) (key : String) (w : W)
    → (conn.pool.get key w).0 ≡ ok none
    → get_and_deserialize_key conn C.json key w
      ≡ (err RedisError.not_found, (conn.pool.get key w).1)
unfolding get_and_deserialize_key get_key
missing_key C conn key w h = ground (arith, h)

failed_get :
    {W Dyn T : Type 0} (C : Cacheable Dyn T) (conn : RedisConnectionPool W) (key : String) (w : W)
    (e : RedisErrorKind)
    → (conn.pool.get key w).0 ≡ err e
    → get_and_deserialize_key conn C.json key w ≡ (err get_failed, (conn.pool.get key w).1)
unfolding get_and_deserialize_key get_key
failed_get C conn key w e h = ground (arith, h)

-- What is populated is what was fetched.
get_data_set_redis-fetched :
    {W Dyn T : Type 0} (C : Cacheable Dyn T) (conn : RedisConnectionPool W) (key : String)
    (fetch : Exec W StorageError T) (w : W) (v : T)
    → (get_data_set_redis conn C key fetch w).0 ≡ ok v
    → (fetch w).0 ≡ ok v
unfolding get_data_set_redis
get_data_set_redis-fetched C conn key fetch w v h = elim (Result-cases (fetch w).0) [
  | inr (e, failed) ↦ absurd (ground (arith, h, failed))
  | inl (u, fetched) ↦ elim (Result-cases (serialize_and_set_key conn C.json key u (fetch w).1).0) [
    | inr (e, failed) ↦ absurd (ground (arith, h, fetched, failed))
    | inl (done, set) ↦ ground (arith, h, fetched, set)
  ]
]

module _ {W Dyn T : Type 0} (C : Cacheable Dyn T) (conn : RedisConnectionPool W)
    (connect : Connect W) (is_connect : IsConnect conn connect) (cache : Moka W Dyn)
    (keys : KeyLaws conn.pool) (laws : CacheLaws conn.pool cache keys) where
  populate_missing :
      (key : String) (fetch : Exec W StorageError T) (w : W) (v : T)
      → keys.value w key ≡ none
      → (get_or_populate_redis connect C key fetch w).0 ≡ ok v
      → (fetch (conn.pool.get key w).1).0 ≡ ok v
  unfolding get_or_populate_redis or_populate
  populate_missing key fetch w v missing h = elim (is_connect w) [
    | inr (e, failed) ↦ absurd (ground (arith, failed))
    | inl connected ↦ elim (Result-cases (conn.pool.get key w).0) [
      | inr (e, failed) ↦ absurd (ground (arith, connected, failed_get C conn key w e failed))
      | inl (reply, answered) ↦
          let is_none = answered ∙ ap ok (laws.get_value key w reply answered ∙ missing) in
          get_data_set_redis-fetched C conn key fetch (conn.pool.get key w).1 v
            (ground (arith, h, connected, missing_key C conn key w is_none))
    ]
  ]

  populate_in_memory_missing :
      (key : String) (fetch : Exec W StorageError T) (w : W) (v : T)
      → keys.value w key ≡ none
      → (populate_in_memory connect C key fetch cache w).0 ≡ ok v
      → (fetch (conn.pool.get key w).1).0 ≡ ok v
  unfolding populate_in_memory
  populate_in_memory_missing key fetch w v missing h =
      elim (Result-cases (get_or_populate_redis connect C key fetch w).0) [
        | inr (e, failed) ↦ absurd (ground (arith, h, failed))
        | inl (u, populated) ↦ populate_missing key fetch w v missing (ground (arith, h, populated))
      ]

  -- After redact_cache has succeeded, a lookup through both caches that succeeds answers what its own fetch answers after the caches were asked, if the laws of the caches hold.
  pub redact_cache-then_fetches :
      {R : Type 0} (key : String) (write : Exec W StorageError R) (fetch : Exec W StorageError T)
      (w : W) (d : R) (v : T)
      → (redact_cache connect key write (some cache) w).0 ≡ ok d
      → let w1 = (redact_cache connect key write (some cache) w).1 in
        (get_or_populate_in_memory connect C key fetch cache w1).0 ≡ ok v
        → (fetch (conn.pool.get key (cache.get key w1).1).1).0 ≡ ok v
  unfolding get_or_populate_in_memory get_val
  redact_cache-then_fetches key write fetch w d v redacted h =
      let w1 = (redact_cache connect key write (some cache) w).1 in
      let (gone, uncached) =
        redact_cache-removes conn connect is_connect cache keys laws key write w d redacted in
      let not_in_memory = laws.get_missing key w1 uncached in
      populate_in_memory_missing key fetch (cache.get key w1).1 v (laws.get_keeps key w1 key ∙ gone)
        (ground (arith, h, not_in_memory))
