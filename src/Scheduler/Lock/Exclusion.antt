-- ===== src/Scheduler/Lock/Exclusion.antt =====
-- Producers that share the lock, in any interleaving of their steps: while the lock does not expire, at
-- most one is between acquiring and releasing it.
use mercado.Redis.Commands.{set_key_if_not_exists_with_expiry, set_expiry, delete_key}
use mercado.Errors.{RedisError}
use mercado.Prelude.Int.{pos, ◌≤ℤ◌}
use mercado.Prelude.Results.{Result, Result-cases, ok, err}
use mercado.Prelude.Exec.{Exec}
use mercado.Prelude.{
  String, ◌≢◌, none, Bool, Bool-cases, inl, true, ◌≡◌, arith, false, inr, sym, ℕ, ◌≤◌, suc, ◌∙◌,
  ◌⊎◌, some,
}
use mercado.Config.Settings.{SchedulerSettings}
use mercado.Redis.Laws.{KeyLaws, IsSetIfAbsent}
use mathlib.Core.Path.{subst}
use mercado.Scheduler.Queue
use mercado.Redis.Replies.{
  string, null, integer, other, RedisErrorKind, FredValue, setnx_from_value,
}

module _ {W Time Json : Type 0} (s : Queue.SchedulerStore W Time Json)
    (laws : KeyLaws s.redis_conn.pool) (settings : SchedulerSettings) where
  abbrev lock_key : String
  lock_key = settings.producer.lock_key

  abbrev pub acquire : Exec W RedisError Bool
  acquire = Queue.acquire_pt_lock s "PRODUCER_LOCK" lock_key "LOCKED" settings.producer.lock_ttl

  abbrev pub release : Exec W RedisError Bool
  release = Queue.release_pt_lock s "PRODUCER_LOCK" lock_key

  abbrev pub IsLocked : W → Type 0
  IsLocked w = laws.value w lock_key ≢ none

  abbrev set_key_nx : Exec W RedisErrorKind FredValue
  set_key_nx = s.redis_conn.pool.set lock_key "LOCKED" (pos s.redis_conn.default_ttl) true

  -- What an attempt to acquire the lock can do.
  abbrev IsAttempt : W → Result RedisError Bool → W → Type 0
  IsAttempt w r w' =
      (r ≡ ok true → (laws.value w lock_key ≡ none) × IsLocked w') × (IsLocked w → IsLocked w')

  refused : (w w' : W) → (IsLocked w → IsLocked w') → IsAttempt w (ok false) w'
  refused w w' keeps = (λ h. cc, keeps)

  IsAttempt-after :
      (w : W) (p : Result RedisError Bool × W)
      → acquire w ≡ p
      → IsAttempt w p.0 p.1
      → let (r, w') = acquire w in IsAttempt w r w'
  IsAttempt-after w p e h = subst (λ q. IsAttempt w q.0 q.1) (sym e) h

  set_key_nx-outcome :
      (w : W) (r : Result RedisErrorKind FredValue)
      → (set_key_nx w).0 ≡ r
      → IsSetIfAbsent lock_key "LOCKED" (laws.value w) (laws.value (set_key_nx w).1) r
  set_key_nx-outcome w r e =
      subst (IsSetIfAbsent lock_key "LOCKED" (laws.value w) (laws.value (set_key_nx w).1)) e
        (laws.set_if_absent lock_key "LOCKED" (pos s.redis_conn.default_ttl) w)

  module _ (w : W) (available : s.is_redis_available w ≡ true) where
    acquire-set_failed :
        (x : RedisErrorKind) → (set_key_nx w).0 ≡ err x → acquire w ≡ (ok false, (set_key_nx w).1)
    unfolding Queue.acquire_pt_lock Queue.get_redis_conn set_key_if_not_exists_with_expiry
    acquire-set_failed x e = ground arith

    acquire-null : (set_key_nx w).0 ≡ ok null → acquire w ≡ (ok false, (set_key_nx w).1)
    unfolding Queue.acquire_pt_lock Queue.get_redis_conn set_key_if_not_exists_with_expiry
        setnx_from_value
    acquire-null e = ground arith

    -- The attempt that has set the key: it succeeds with the key set, or does not succeed.
    acquire-set :
        (t : String)
        → (set_key_nx w).0 ≡ ok (string t)
        → let w1 = (set_key_nx w).1 in
          let (expired, w2) = s.redis_conn.pool.expire lock_key settings.producer.lock_ttl w1 in
          ((expired ≡ ok tt) × (acquire w ≡ (ok true, w2)))
          ⊎ ((w' : W) × (acquire w ≡ (ok false, w')))
    unfolding Queue.acquire_pt_lock Queue.get_redis_conn set_key_if_not_exists_with_expiry
        setnx_from_value set_expiry
    acquire-set t e =
        elim (Result-cases
          (s.redis_conn.pool.expire lock_key settings.producer.lock_ttl (set_key_nx w).1).0) [
            | inl (x, e2) ↦ inl (e2, ground arith)
            | inr (x, e2) ↦ inr (
              (delete_key s.redis_conn lock_key
                  (s.redis_conn.pool.expire lock_key settings.producer.lock_ttl
                    (set_key_nx w).1).1).1,
              ground arith,
            )
          ]

    IsAttempt-answered :
        (reply : FredValue)
        → pos 1 ≤ℤ settings.producer.lock_ttl
        → (set_key_nx w).0 ≡ ok reply
        → let (r, w') = acquire w in IsAttempt w r w'
    IsAttempt-answered (string t) ttl e =
        let (absent, present, elsewhere) = set_key_nx-outcome w (ok (string t)) e in
        let keeps =
          laws.expire_keeps lock_key settings.producer.lock_ttl (set_key_nx w).1 lock_key ttl in
        elim (acquire-set t e) [
          | inl (expired, got) ↦ IsAttempt-after w _ got (
            λ h.
                (absent, λ h2. let bad : some "LOCKED" ≡ none = sym present ∙ sym keeps ∙ h2 in cc),
            λ set. absurd (set absent),
          )
          | inr (w', got) ↦ IsAttempt-after w _ got (refused w w' (λ set. absurd (set absent)))
        ]
    IsAttempt-answered null ttl e =
        let (present, same) = set_key_nx-outcome w (ok null) e in
        IsAttempt-after w _ (acquire-null e)
          (refused w (set_key_nx w).1 (λ set h. set (sym (same lock_key) ∙ h)))
    IsAttempt-answered (integer n) ttl e = absurd (set_key_nx-outcome w (ok (integer n)) e)
    IsAttempt-answered other ttl e = absurd (set_key_nx-outcome w (ok other) e)

  acquire-offline :
      (w : W)
      → s.is_redis_available w ≡ false
      → acquire w ≡ (err RedisError.redis_connection_error, w)
  unfolding Queue.acquire_pt_lock Queue.get_redis_conn
  acquire-offline w e = ground arith

  acquire-IsAttempt :
      (w : W) → pos 1 ≤ℤ settings.producer.lock_ttl → let (r, w') = acquire w in IsAttempt w r w'
  acquire-IsAttempt w ttl = elim (Bool-cases (s.is_redis_available w)) [
    | inl a ↦ elim (Result-cases (set_key_nx w).0) [
      | inl (reply, e) ↦ IsAttempt-answered w a reply ttl e
      | inr (x, e) ↦
          let (keeps, elsewhere) = set_key_nx-outcome w (err x) e in
          IsAttempt-after w _ (acquire-set_failed w a x e)
            (refused w (set_key_nx w).1 (λ set h. set (sym (keeps set) ∙ h)))
    ]
    | inr a ↦ IsAttempt-after w _ (acquire-offline w a) (λ h. cc, λ set. set)
  ]

  -- The world, and the number of producers between acquiring and releasing the lock.
  pub record Shared : Type 0 where
    pub world : W
    pub inside : ℕ

  -- A step of one of the producers. Whatever runs between the lock's own calls leaves its key alone.
  pub data Step : Shared → Shared → Type 0 where
    enters :
        {w : W} {n : ℕ}
        → (acquire w).0 ≡ ok true
        → Step (record { world = w; inside = n }) (record { world = (acquire w).1; inside = suc n })
    stays_out :
        {w : W} {n : ℕ}
        → (acquire w).0 ≢ ok true
        → Step (record { world = w; inside = n }) (record { world = (acquire w).1; inside = n })
    works :
        {w w' : W} {n : ℕ}
        → laws.value w' lock_key ≡ laws.value w lock_key
        → Step (record { world = w; inside = n }) (record { world = w'; inside = n })
    leaves :
        {w : W} {n : ℕ}
        → Step (record { world = w; inside = suc n }) (record { world = (release w).1; inside = n })

  pub data Run : Shared → Shared → Type 0 where
    start : {a : Shared} → Run a a
    then : {a b c : Shared} → Run a b → Step b c → Run a c

  abbrev IsExclusive : Shared → Type 0
  IsExclusive a = (a.inside ≤ 1) × (a.inside ≡ 1 → IsLocked a.world)

  Step-IsExclusive :
      {a b : Shared}
      → pos 1 ≤ℤ settings.producer.lock_ttl
      → Step a b
      → IsExclusive a
      → IsExclusive b
  Step-IsExclusive ttl (enters {w = w} {n = n} e) (most, set) =
      let (absent, present) = (acquire-IsAttempt w ttl).0 e in
      let none_inside : n ≢ 1 = λ h. set h absent in (omega arith, λ h. present)
  Step-IsExclusive ttl (stays_out {w = w} e) (most, set) =
      (most, λ h. (acquire-IsAttempt w ttl).1 (set h))
  Step-IsExclusive ttl (works same) (most, set) = (most, λ h h2. set h (sym same ∙ h2))
  Step-IsExclusive ttl (leaves {n = n}) (most, set) = (omega arith, λ h. absurd (omega arith))

  Run-IsExclusive :
      {a b : Shared} → pos 1 ≤ℤ settings.producer.lock_ttl → Run a b → IsExclusive a → IsExclusive b
  Run-IsExclusive ttl start h = h
  Run-IsExclusive ttl (then run step) h = Step-IsExclusive ttl step (Run-IsExclusive ttl run h)

  -- From a state in which no producer is inside, and with a positive time to live, every sequence of
  -- steps of the producers that does not include an expiry leads to a state with at most one inside.
  pub Run-excludes :
      {a b : Shared} → pos 1 ≤ℤ settings.producer.lock_ttl → a.inside ≡ 0 → Run a b → b.inside ≤ 1
  Run-excludes ttl h run = (Run-IsExclusive ttl run (omega arith, λ inside. absurd (omega arith))).0
