-- ===== src/Drainer/Handler/Flag.antt =====
-- The flag of a stream: taken by `is_stream_available`, released by `drainer_handler`.
use mercado.Drainer.Handler.{
  drainer, drainer_handler, after_read, make_stream_available, on_world, pick_job, Machine, enter,
  leave, get_drainer_stream_name, Result, DrainerError, err,
}
use mercado.Errors.{DatabaseError, DrainerError, delete_failed}
use mercado.Prelude.Exec.{Exec}
use mercado.Drainer.Entries.{StreamCodec}
use mercado.Prelude.Results.{ok, Result, Result-cases, err}
use mercado.Prelude.Int.{pos}
use mercado.Redis.Commands.{set_key_if_not_exists_with_expiry, delete_key}
use mercado.Redis.Laws.{KeyLaws, IsElsewhereSame, IsSetIfAbsent}
use mercado.Drainer.Streams.{
  DrainerStore, is_stream_available, get_stream_key_flag, make_stream_available,
  get_drainer_stream_name,
}
use mercado.Prelude.{
  Option, String, Bool, some, ◌≢◌, none, true, ℕ, false, ◌≡◌, refl, arith, ◌<◌, ◌^◌, inl, inr,
}
use mathlib.Core.Path.{subst}
use mercado.Redis.Deletes.{delete_key-deletes}
use mercado.Redis.Replies.{
  string, null, integer, other, FredValue, setnx_from_value, RedisErrorKind,
}

abbrev pub is_none : Option String → Bool
is_none none = true
is_none (some v) = false

-- A key that is set if it was not there.
abbrev pub or_value : String → Option String → Option String
or_value v none = some v
or_value v (some old) = some old

is_none-of :
    (o : Option String) → o ≢ none → (is_none o ≡ false) × ((v : String) → or_value v o ≡ o)
is_none-of none h = absurd (h refl)
is_none-of (some v) h = (refl, λ u. refl)

module _ {W : Type 0} (store : DrainerStore W) (laws : KeyLaws store.redis_conn.pool) where
  set-outcome :
      (i : ℕ) (w : W) (reply : FredValue)
      → let flag = get_stream_key_flag store i in
        let (r, w') =
          store.redis_conn.pool.set flag "true" (pos store.redis_conn.default_ttl) true w in
        r ≡ ok reply → IsSetIfAbsent flag "true" (laws.value w) (laws.value w') (ok reply)
  set-outcome i w reply e =
      let flag : String = get_stream_key_flag store i in
      let w' : W =
        (store.redis_conn.pool.set flag "true" (pos store.redis_conn.default_ttl) true w).1 in
      subst (IsSetIfAbsent flag "true" (laws.value w) (laws.value w')) e
        (laws.set_if_absent flag "true" (pos store.redis_conn.default_ttl) w)

  -- If the SET command is answered, the stream is available exactly when its flag was not set; after the
  -- call the flag is set in either case, and no other key has changed.
  pub is_stream_available-takes_flag :
      (i : ℕ) (w : W) (reply : FredValue)
      → (store.redis_conn.pool.set
          (get_stream_key_flag store i)
          "true"
          (pos store.redis_conn.default_ttl)
          true
          w).0
        ≡ ok reply
      → let (available, w') = is_stream_available store i w in
        let flag = get_stream_key_flag store i in
        (available ≡ is_none (laws.value w flag))
        × (laws.value w' flag ≡ or_value "true" (laws.value w flag))
        × IsElsewhereSame flag (laws.value w) (laws.value w')
  unfolding is_stream_available set_key_if_not_exists_with_expiry setnx_from_value
  is_stream_available-takes_flag i w (string s) e =
      let (absent, set, elsewhere) = set-outcome i w (string s) e in
      rw e (rw absent (refl, set, elsewhere))
  is_stream_available-takes_flag i w null e =
      let (present, same) = set-outcome i w null e in
      let (not_none, kept) = is_none-of (laws.value w (get_stream_key_flag store i)) present in
      rw e (rw (not_none, kept "true") (refl, same (get_stream_key_flag store i), λ k h. same k))
  is_stream_available-takes_flag i w (integer n) e = absurd (set-outcome i w (integer n) e)
  is_stream_available-takes_flag i w other e = absurd (set-outcome i w other e)

-- What the end of a handler comes to, by the answer of DEL: its result and the flag of the stream.
abbrev pub IsReleased :
    Result RedisErrorKind FredValue → Result DrainerError (Unit {0}) → Option String → Type 0
IsReleased (ok reply) r flag = (r ≡ ok tt) × (flag ≡ none)
IsReleased (err e) r flag = r ≡ err (DrainerError.redis_error delete_failed)

module _ {W : Type 0} (store : DrainerStore W) (laws : KeyLaws store.redis_conn.pool) where
  answered-IsReleased :
      (flag : String) (w : W) (reply : FredValue)
      → (store.redis_conn.pool.del flag w).0 ≡ ok reply
      → let (r, w') = make_stream_available store flag w in
        IsReleased (ok reply) r (laws.value w' flag)
  unfolding make_stream_available
  answered-IsReleased flag w reply e =
      let ((answer, is_answer), gone) = delete_key-deletes store.redis_conn laws flag w reply e in
      rw is_answer (refl, gone)

  failed-IsReleased :
      (flag : String) (w : W) (e : RedisErrorKind)
      → (store.redis_conn.pool.del flag w).0 ≡ err e
      → let (r, w') = make_stream_available store flag w in
        IsReleased (err e) r (laws.value w' flag)
  unfolding make_stream_available delete_key
  failed-IsReleased flag w e h = rw h refl

  make_stream_available-IsReleased :
      (flag : String) (w : W)
      → let (r, w') = make_stream_available store flag w in
        IsReleased (store.redis_conn.pool.del flag w).0 r (laws.value w' flag)
  make_stream_available-IsReleased flag w =
      elim (Result-cases (store.redis_conn.pool.del flag w).0) [
        | inl (reply, e) ↦ rw e (answered-IsReleased flag w reply e)
        | inr (failure, e) ↦ rw e (failed-IsReleased flag w failure e)
      ]

module _ {W Op DbResult : Type 0} (codec : StreamCodec Op)
    (execute : Op → Exec W DatabaseError DbResult) (store : DrainerStore W)
    (laws : KeyLaws store.redis_conn.pool) where
  drainer-active_tasks :
      (n : ℕ) (stream : String) (m : Machine W)
      → (drainer codec execute store n stream m).1.active_tasks ≡ m.active_tasks
  unfolding drainer after_read on_world pick_job
  drainer-active_tasks n stream m = ground arith

  -- When the handler of a stream ends, the counter of active tasks is what it was, however the drainer
  -- in it and the DEL command have ended. If DEL is answered, the handler succeeds and the flag of the
  -- stream is not set; if DEL fails, the handler ends in DeleteFailed. The counter is a u64, and a
  -- handler that panics does not end in this way.
  pub drainer_handler-releases_flag :
      (i n : ℕ) (m : Machine W)
      → m.active_tasks < 2 ^ 64
      → let flag = get_stream_key_flag store i in
        let w =
          (drainer codec execute store n (get_drainer_stream_name store i) (enter m)).1.world in
        let (r, m') = drainer_handler codec execute store i n m in
        (m'.active_tasks ≡ m.active_tasks)
        × IsReleased (store.redis_conn.pool.del flag w).0 r (laws.value m'.world flag)
  unfolding drainer_handler on_world enter leave
  drainer_handler-releases_flag i n m h =
      let m1 : Machine W =
        (drainer codec execute store n (get_drainer_stream_name store i) (enter m)).1 in
      (
        omega (arith, drainer-active_tasks n (get_drainer_stream_name store i) (enter m)),
        make_stream_available-IsReleased store laws (get_stream_key_flag store i) m1.world,
      )
