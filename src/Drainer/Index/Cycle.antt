-- ===== src/Drainer/Index/Cycle.antt =====
-- The drainer visits its streams in turn.
use mercado.Prelude.{ℕ, suc, ◌<◌, zero, ◌≡◌, ◌≤◌, arith, ◌*◌, ◌+◌, refl, ◌-◌}
use mercado.Drainer.Index.{increment_stream_index, ℕ}

-- The state after `k` increments from the first stream.
abbrev pub after : (total_streams jobs_picked k : ℕ) → ℕ × ℕ
after total_streams jobs_picked zero = (0, jobs_picked)
after total_streams jobs_picked (suc k) =
    let (index, jobs) = after total_streams jobs_picked k in
    increment_stream_index index jobs total_streams

next-inside : (n i j : ℕ) → suc i < n → n ≤ 255 → increment_stream_index i j n ≡ (suc i, j)
unfolding increment_stream_index
next-inside n i j h b = ground arith

next-last : (n i j : ℕ) → suc i ≡ n → n ≤ 255 → increment_stream_index i j n ≡ (0, 0)
unfolding increment_stream_index
next-last n i j h b = ground arith

suc-mul : (q n : ℕ) → suc q * n ≡ n + q * n
suc-mul q n = omega arith

-- The jobs counted after `q` whole cycles in which no job was picked.
abbrev pub reset_after : ℕ → ℕ → ℕ
reset_after zero jobs_picked = jobs_picked
reset_after (suc q) jobs_picked = 0

no-cycle : (n q r : ℕ) → r < n → 0 ≡ suc q * n + r → ⊥
no-cycle n q r h e = omega (arith, suc-mul q n)

after-eq_remainder :
    (n j k q r : ℕ) → k ≡ q * n + r → r < n → n ≤ 255 → after n j k ≡ (r, reset_after q j)
after-eq_remainder n j zero zero r e h b = ground arith
after-eq_remainder n j zero (suc q) r e h b = elim (no-cycle n q r h e) [ ]
after-eq_remainder n j (suc k) q (suc r) e h b = ground (
  arith,
  next-inside n r (reset_after q j) h b,
  after-eq_remainder n j k q r (omega arith) (omega arith) b,
)
after-eq_remainder n j (suc k) zero zero e h b = ground arith
after-eq_remainder n j (suc k) (suc q) zero e h b = ground (
  arith,
  next-last n (n - 1) (reset_after q j) (omega arith) b,
  after-eq_remainder n j k q (n - 1) (omega (arith, suc-mul q n)) (omega arith) b,
)

-- With 1 to 255 partitions the drainer visits the streams 0, 1, ... in turn, for ever: the increment
-- number `q * total_streams + r` leads to stream `r`, and the count of picked jobs is reset at the end
-- of each cycle and only there.
pub increments-cycle :
    (total_streams jobs_picked q r : ℕ)
    → r < total_streams
    → total_streams ≤ 255
    → after total_streams jobs_picked (q * total_streams + r) ≡ (r, reset_after q jobs_picked)
increments-cycle n j q r h b = after-eq_remainder n j (q * n + r) q r refl h b
