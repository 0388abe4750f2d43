-- ===== src/Drainer/Shutdown/Measures.antt =====
-- How far a drainer process is from its end.
use mathlib.Core.Path.{ap}
use mercado.Prelude.{false, ℕ, ◌≡◌, ◌≤◌, arith, ◌+◌, ◌∙◌, refl, inl, inr, length, ◌⊎◌}
use mercado.Drainer.Shutdown.{Process, next_stream, HandlerPhase, SpawnLoop}
use mercado.Drainer.Shutdown.Counting.{total}
use mercado.Drainer.Index.{increment_stream_index}

-- The most steps that a handler has left, and the loop with the handler that it may still spawn.
abbrev pub handler_steps : HandlerPhase → ℕ
handler_steps HandlerPhase.spawned = 3
handler_steps HandlerPhase.inside = 2
handler_steps HandlerPhase.picked = 1
handler_steps HandlerPhase.left = 0
handler_steps HandlerPhase.panicked = 0

abbrev pub loop_steps : SpawnLoop → ℕ
loop_steps SpawnLoop.asking = 6
loop_steps SpawnLoop.moving = 2
loop_steps SpawnLoop.checking = 1
loop_steps SpawnLoop.ended = 0

abbrev pub left_steps : Process → ℕ
left_steps p = loop_steps p.spawn_loop + total handler_steps p.handlers

-- The handlers that the loop may still spawn, and the streams that it may still move by.
abbrev pub may_spawn : SpawnLoop → ℕ
may_spawn SpawnLoop.asking = 1
may_spawn _ = 0

abbrev pub may_move : SpawnLoop → ℕ
may_move SpawnLoop.asking = 1
may_move SpawnLoop.moving = 1
may_move _ = 0

module _ (total_streams : ℕ) (start : Process) where
  -- At the stream of the start, or at the next one if the loop was past its test there.
  abbrev pub IsMoved : Process → Type 0
  IsMoved p =
      ((p.stream_index ≡ start.stream_index) × (may_move p.spawn_loop ≤ may_move start.spawn_loop))
      ⊎ ((p.stream_index
            ≡ (increment_stream_index start.stream_index start.jobs_picked total_streams).0)
          × (may_move p.spawn_loop ≡ 0)
          × (may_move start.spawn_loop ≡ 1))

  -- Closed, with as many handlers as at the start and those that may be spawned, on the same or
  -- the next stream, and `n` steps nearer to the end.
  abbrev pub IsEnding : ℕ → Process → Type 0
  IsEnding n p =
      (p.running ≡ false)
      × (length p.handlers + may_spawn p.spawn_loop
          ≤ length start.handlers + may_spawn start.spawn_loop)
      × IsMoved p
      × (n + left_steps p ≤ left_steps start)

-- The next stream does not depend on the jobs.
increment-jobs : (i j k n : ℕ) → (increment_stream_index i j n).0 ≡ (increment_stream_index i k n).0
unfolding increment_stream_index
increment-jobs i j k n = ground arith

pub IsMoved-stays :
    (total_streams : ℕ) (start p q : Process)
    → q.stream_index ≡ p.stream_index
    → may_move q.spawn_loop ≤ may_move p.spawn_loop
    → IsMoved total_streams start p
    → IsMoved total_streams start q
IsMoved-stays total_streams start p q same less (inl (i, h)) =
    inl (same ∙ i, omega (arith, less, h))
IsMoved-stays total_streams start p q same less (inr (i, none_left, h)) =
    inr (same ∙ i, omega (arith, less, none_left), h)

pub IsMoved-moves :
    (total_streams : ℕ) (start p : Process)
    → may_move p.spawn_loop ≡ 1
    → may_move start.spawn_loop ≤ 1
    → IsMoved total_streams start p
    → IsMoved total_streams start (next_stream total_streams p)
unfolding next_stream
IsMoved-moves total_streams start p can small (inl (i, h)) = inr (
  ap (λ k. (increment_stream_index k p.jobs_picked total_streams).0) i
      ∙ increment-jobs start.stream_index p.jobs_picked start.jobs_picked total_streams,
  refl,
  omega (arith, can, small, h),
)
IsMoved-moves total_streams start p can small (inr (i, none_left, h)) =
    absurd (omega (arith, can, none_left))

pub may_move_le : (l : SpawnLoop) → may_move l ≤ 1
may_move_le SpawnLoop.checking = omega arith
may_move_le SpawnLoop.asking = omega arith
may_move_le SpawnLoop.moving = omega arith
may_move_le SpawnLoop.ended = omega arith
