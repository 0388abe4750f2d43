-- ===== src/Scheduler/Lock/Release.antt =====
-- The producer's lock on the store: it excludes, and it is released.
use mercado.Errors.{ProcessTrackerError}
use mercado.Prelude.Results.{ok, Result}
use mercado.Prelude.Int.{pos, ◌≤ℤ◌}
use mercado.Scheduler.Implementation.{scheduler_interface}
use mercado.Scheduler.Lock.{lock_acquire_release, ok, ProcessTrackerError}
use mercado.Redis.Commands.{set_key_if_not_exists_with_expiry, set_expiry}
use mercado.Prelude.Exec.{Exec}
use mercado.Prelude.{String, ◌≡◌, Option, true, some, false, arith, refl, none, ◌∙◌}
use mercado.Config.Settings.{SchedulerSettings}
use mercado.Redis.Laws.{KeyLaws, IsSetIfAbsent}
use mercado.Scheduler.Batch.Wire.{Codec}
use mathlib.Core.Path.{subst}
use mercado.Redis.Deletes.{delete_key-deletes}
use mercado.Scheduler.Queue
use mercado.Redis.Replies.{
  string, null, integer, other, FredValue, RedisErrorKind, setnx_from_value,
}

module _ {W Time Json : Type 0} (codec : Codec Time Json) (s : Queue.SchedulerStore W Time Json)
    (laws : KeyLaws s.redis_conn.pool) (settings : SchedulerSettings) where
  abbrev pub key : String
  key = settings.producer.lock_key

  abbrev pub set_lock : Exec W RedisErrorKind FredValue
  set_lock = s.redis_conn.pool.set key "LOCKED" (pos s.redis_conn.default_ttl) true

  set_lock-outcome :
      (w : W) (reply : FredValue)
      → (set_lock w).0 ≡ ok reply
      → IsSetIfAbsent key "LOCKED" (laws.value w) (laws.value (set_lock w).1) (ok reply)
  set_lock-outcome w reply e =
      subst (IsSetIfAbsent key "LOCKED" (laws.value w) (laws.value (set_lock w).1)) e
        (laws.set_if_absent key "LOCKED" (pos s.redis_conn.default_ttl) w)

  acquire_held :
      (w : W) (reply : FredValue) (v : String)
      → s.is_redis_available w ≡ true
      → (set_lock w).0 ≡ ok reply
      → laws.value w key ≡ some v
      → Queue.acquire_pt_lock s "PRODUCER_LOCK" key "LOCKED" settings.producer.lock_ttl w
        ≡ (ok false, (set_lock w).1)
  unfolding Queue.acquire_pt_lock Queue.get_redis_conn set_key_if_not_exists_with_expiry
      setnx_from_value
  acquire_held w (string t) v a e h = let absent = (set_lock-outcome w (string t) e).0 in cc
  acquire_held w null v a e h = ground arith
  acquire_held w (integer n) v a e h = absurd (set_lock-outcome w (integer n) e)
  acquire_held w other v a e h = absurd (set_lock-outcome w other e)

  set_lock-keeps :
      (w : W) (reply : FredValue) (v : String)
      → (set_lock w).0 ≡ ok reply
      → laws.value w key ≡ some v
      → (k : String) → laws.value (set_lock w).1 k ≡ laws.value w k
  set_lock-keeps w (string t) v e h = let absent = (set_lock-outcome w (string t) e).0 in cc
  set_lock-keeps w null v e h = (set_lock-outcome w null e).1
  set_lock-keeps w (integer n) v e h = absurd (set_lock-outcome w (integer n) e)
  set_lock-keeps w other v e h = absurd (set_lock-outcome w other e)

  -- While the key of the lock is set, and Redis is available and answers the SET command, the callback
  -- is not called: whatever it is, the call succeeds, and no key has changed.
  pub lock_acquire_release-excludes :
      (callback : W → Option (Result ProcessTrackerError (Unit {0}) × W)) (w : W)
      (reply : FredValue) (v : String)
      → s.is_redis_available w ≡ true
      → (set_lock w).0 ≡ ok reply
      → laws.value w key ≡ some v
      → (lock_acquire_release (scheduler_interface codec s) settings callback w
          ≡ some (ok tt, (set_lock w).1))
        × ((k : String) → laws.value (set_lock w).1 k ≡ laws.value w k)
  unfolding lock_acquire_release scheduler_interface
  lock_acquire_release-excludes callback w reply v a e h =
      (rw (acquire_held w reply v a e h) refl, set_lock-keeps w reply v e h)

  abbrev pub expire_lock : Exec W RedisErrorKind (Unit {0})
  expire_lock = s.redis_conn.pool.expire key settings.producer.lock_ttl

  acquire_free :
      (w : W) (reply : FredValue)
      → s.is_redis_available w ≡ true
      → (set_lock w).0 ≡ ok reply
      → laws.value w key ≡ none
      → (expire_lock (set_lock w).1).0 ≡ ok tt
      → Queue.acquire_pt_lock s "PRODUCER_LOCK" key "LOCKED" settings.producer.lock_ttl w
        ≡ (ok true, (expire_lock (set_lock w).1).1)
  unfolding Queue.acquire_pt_lock Queue.get_redis_conn set_key_if_not_exists_with_expiry
      setnx_from_value set_expiry
  acquire_free w (string t) a e h x = ground arith
  acquire_free w null a e h x = absurd ((set_lock-outcome w null e).0 h)
  acquire_free w (integer n) a e h x = absurd (set_lock-outcome w (integer n) e)
  acquire_free w other a e h x = absurd (set_lock-outcome w other e)

  set_lock-sets :
      (w : W) (reply : FredValue)
      → (set_lock w).0 ≡ ok reply
      → laws.value w key ≡ none
      → laws.value (set_lock w).1 key ≡ some "LOCKED"
  set_lock-sets w (string t) e h = (set_lock-outcome w (string t) e).1
  set_lock-sets w null e h = absurd ((set_lock-outcome w null e).0 h)
  set_lock-sets w (integer n) e h = absurd (set_lock-outcome w (integer n) e)
  set_lock-sets w other e h = absurd (set_lock-outcome w other e)

  release-frees :
      (w : W) (reply : FredValue)
      → s.is_redis_available w ≡ true
      → (s.redis_conn.pool.del key w).0 ≡ ok reply
      → let (r, w') = Queue.release_pt_lock s "PRODUCER_LOCK" key w in
        (r ≡ ok true) × (laws.value w' key ≡ none)
  unfolding Queue.release_pt_lock Queue.get_redis_conn
  release-frees w reply a e =
      let ((answer, is_answer), gone) = delete_key-deletes s.redis_conn laws key w reply e in
      rw (a, is_answer) (refl, gone)

  -- While the key of the lock is not set, and Redis is available and answers SET and EXPIRE, with a
  -- positive time to live: the callback starts with the key set. If it ends, with whatever result, and
  -- Redis is available and answers DEL, then its result is returned and the key is not set any more.
  pub lock_acquire_release-runs :
      (callback : W → Option (Result ProcessTrackerError (Unit {0}) × W)) (w : W)
      (reply del_reply : FredValue) (result : Result ProcessTrackerError (Unit {0})) (w2 : W)
      → s.is_redis_available w ≡ true
      → (set_lock w).0 ≡ ok reply
      → laws.value w key ≡ none
      → pos 1 ≤ℤ settings.producer.lock_ttl
      → (expire_lock (set_lock w).1).0 ≡ ok tt
      → callback (expire_lock (set_lock w).1).1 ≡ some (result, w2)
      → s.is_redis_available w2 ≡ true
      → (s.redis_conn.pool.del key w2).0 ≡ ok del_reply
      → (laws.value (expire_lock (set_lock w).1).1 key ≡ some "LOCKED")
        × ((w' : W) × (lock_acquire_release (scheduler_interface codec s) settings callback w
              ≡ some (result, w'))
            × (laws.value w' key ≡ none))
  unfolding lock_acquire_release scheduler_interface
  lock_acquire_release-runs callback w reply del_reply result w2 a e h ttl x c a2 d =
      let (released, gone) = release-frees w2 del_reply a2 d in
      (
        laws.expire_keeps key settings.producer.lock_ttl (set_lock w).1 key ttl
            ∙ set_lock-sets w reply e h,
        (
          (Queue.release_pt_lock s "PRODUCER_LOCK" key w2).1,
          rw (acquire_free w reply a e h x) (rw c (ground (arith, released))),
          gone,
        ),
      )
