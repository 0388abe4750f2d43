-- ===== src/Drainer/Shutdown/Closing.antt =====
-- What is left of a drainer process after `close`.
use mathlib.Core.Path.{subst, ap}
use mercado.Prelude.{
  true, false, ℕ, ◌≢◌, suc, sym, ◌<◌, ◌≡◌, arith, ◌∙◌, refl, List, [], ◌∷◌, ◌++◌, inl, length,
  length-append,
}
use mercado.Drainer.Shutdown.{
  Process, next_stream, enter_handler, leave_handler, close, LoopStep, HandlerStep, Run,
  ListenerStep, HandlerPhase, SpawnLoop, go_on, stop, see_none_active, pick, panic, is_active,
  spawn_one, spawn_handler, skip_stream, receive, terminate, stop_listening, enter, leave, here,
  loop, handler, listener, move, pick_in_handler, panic_in_handler,
}
use mercado.Drainer.Shutdown.Counting.{total, total-append}
use mercado.Drainer.Shutdown.Measures.{
  handler_steps, loop_steps, may_spawn, may_move, IsEnding, IsMoved-stays, IsMoved-moves,
  may_move_le,
}

true_ne_false : true ≢ false
true_ne_false h = cc

move-IsEnding :
    (total_streams n : ℕ) (start p : Process)
    → p.spawn_loop ≡ SpawnLoop.moving
    → IsEnding total_streams start n p
    → IsEnding total_streams start (suc n) (next_stream total_streams p)
unfolding next_stream
move-IsEnding total_streams n start p at (closed, few, moved, less) = (
  closed,
  omega (arith, few),
  IsMoved-moves total_streams start p (ap may_move at) (may_move_le start.spawn_loop) moved,
  omega (arith, less, ap loop_steps at),
)

LoopStep-IsEnding :
    (total_streams n : ℕ) (start : Process) {p q : Process}
    → LoopStep total_streams p q
    → IsEnding total_streams start n p
    → IsEnding total_streams start (suc n) q
unfolding spawn_one
LoopStep-IsEnding total_streams n start (go_on at on e) h = absurd (true_ne_false (sym on ∙ h.0))
LoopStep-IsEnding total_streams n start {p} (stop at off e) (closed, few, moved, less) =
    subst (IsEnding total_streams start (suc n)) (sym e) (
      closed,
      omega (arith, few, ap may_spawn at),
      IsMoved-stays total_streams start p (record p { spawn_loop = SpawnLoop.ended }) refl
          (omega arith) moved,
      omega (arith, less, ap loop_steps at),
    )
LoopStep-IsEnding total_streams n start {p} (spawn_handler at e) (closed, few, moved, less) =
    subst (IsEnding total_streams start (suc n)) (sym e) (
      closed,
      omega (arith, few, ap may_spawn at, length-append p.handlers (HandlerPhase.spawned ∷ [])),
      IsMoved-stays total_streams start p (spawn_one p) refl (omega (arith, ap may_move at)) moved,
      omega (
        arith,
        less,
        ap loop_steps at,
        total-append handler_steps p.handlers HandlerPhase.spawned [],
      ),
    )
LoopStep-IsEnding total_streams n start {p} (skip_stream at e) (closed, few, moved, less) =
    subst (IsEnding total_streams start (suc n)) (sym e) (
      closed,
      omega (arith, few, ap may_spawn at),
      IsMoved-stays total_streams start p (record p { spawn_loop = SpawnLoop.moving }) refl
          (omega (arith, ap may_move at)) moved,
      omega (arith, less, ap loop_steps at),
    )
LoopStep-IsEnding total_streams n start {p} (move at e) (closed, few, moved, less) =
    subst (IsEnding total_streams start (suc n)) (sym e)
      (move-IsEnding total_streams n start p at (closed, few, moved, less))

ListenerStep-IsEnding :
    (total_streams n : ℕ) (start : Process) {p q : Process}
    → ListenerStep p q
    → IsEnding total_streams start n p
    → IsEnding total_streams start n q
unfolding close
ListenerStep-IsEnding total_streams n start (receive at e) h =
    subst (IsEnding total_streams start n) (sym e) h
ListenerStep-IsEnding total_streams n start (see_none_active at idle e) h =
    subst (IsEnding total_streams start n) (sym e) h
ListenerStep-IsEnding total_streams n start (terminate at e) (closed, few, moved, less) =
    subst (IsEnding total_streams start n) (sym e) (refl, few, moved, less)
ListenerStep-IsEnding total_streams n start (stop_listening at e) h =
    subst (IsEnding total_streams start n) (sym e) h

-- A handler between `front` and `rest` that goes from one phase to a later one.
handler-IsEnding :
    (total_streams n : ℕ) (start p q : Process) (h h' : HandlerPhase)
    (front rest : List HandlerPhase)
    → handler_steps h' < handler_steps h
    → p.handlers ≡ front ++ h ∷ rest
    → q.handlers ≡ front ++ h' ∷ rest
    → q.running ≡ p.running
    → q.stream_index ≡ p.stream_index
    → q.spawn_loop ≡ p.spawn_loop
    → IsEnding total_streams start n p
    → IsEnding total_streams start (suc n) q
handler-IsEnding total_streams n start p q h h' front rest later before after same_running
      same_index same_loop (closed, few, moved, less) =
    (
      same_running ∙ closed,
      omega (
        arith,
        few,
        ap may_spawn same_loop,
        ap length before ∙ length-append front (h ∷ rest),
        ap length after ∙ length-append front (h' ∷ rest),
      ),
      IsMoved-stays total_streams start p q same_index (omega (arith, ap may_move same_loop)) moved,
      omega (
        arith,
        less,
        later,
        ap loop_steps same_loop,
        ap (total handler_steps) before ∙ total-append handler_steps front h rest,
        ap (total handler_steps) after ∙ total-append handler_steps front h' rest,
      ),
    )

handler_steps-is_active : (h : HandlerPhase) → is_active h ≡ true → 0 < handler_steps h
handler_steps-is_active HandlerPhase.spawned e = cc
handler_steps-is_active HandlerPhase.inside e = omega arith
handler_steps-is_active HandlerPhase.picked e = omega arith
handler_steps-is_active HandlerPhase.left e = cc
handler_steps-is_active HandlerPhase.panicked e = cc

HandlerStep-IsEnding :
    (total_streams n : ℕ) (start : Process) {p q : Process}
    → HandlerStep p q
    → IsEnding total_streams start n p
    → IsEnding total_streams start (suc n) q
unfolding enter_handler pick_in_handler leave_handler panic_in_handler
HandlerStep-IsEnding total_streams n start {p} (enter front rest at e) ending =
    subst (IsEnding total_streams start (suc n)) (sym e) (
      handler-IsEnding total_streams n start p (enter_handler front rest p) HandlerPhase.spawned
        HandlerPhase.inside front rest (omega arith) at refl refl refl refl ending)
HandlerStep-IsEnding total_streams n start {p} (pick front rest at e) ending =
    subst (IsEnding total_streams start (suc n)) (sym e) (
      handler-IsEnding total_streams n start p (pick_in_handler front rest p) HandlerPhase.inside
        HandlerPhase.picked front rest (omega arith) at refl refl refl refl ending)
HandlerStep-IsEnding total_streams n start {p} (leave h front rest active at e) ending =
    subst (IsEnding total_streams start (suc n)) (sym e) (
      handler-IsEnding total_streams n start p (leave_handler front rest p) h HandlerPhase.left
        front rest (handler_steps-is_active h active) at refl refl refl refl ending)
HandlerStep-IsEnding total_streams n start {p} (panic h front rest active at e) ending =
    subst (IsEnding total_streams start (suc n)) (sym e) (
      handler-IsEnding total_streams n start p (panic_in_handler front rest p) h
        HandlerPhase.panicked front rest (handler_steps-is_active h active) at refl refl refl refl
        ending)

-- In any run of a drainer after it was closed: it stays closed; at most one more handler is spawned, and
-- that only if the loop was past its test and waiting for the flag of the stream; it moves by at
-- most one stream, and that only if the loop was past its test; and the steps that the loop and the
-- handlers have taken and those they have left are at most those they had left at the start.
pub Run-IsEnding :
    {total_streams : ℕ} {start : Process} {n : ℕ} {p : Process}
    → start.running ≡ false
    → Run total_streams start n p
    → IsEnding total_streams start n p
Run-IsEnding closed here = (closed, omega arith, inl (refl, omega arith), omega arith)
Run-IsEnding {start = start} closed (loop run step) =
    LoopStep-IsEnding _ _ start step (Run-IsEnding closed run)
Run-IsEnding {start = start} closed (listener run step) =
    ListenerStep-IsEnding _ _ start step (Run-IsEnding closed run)
Run-IsEnding {start = start} closed (handler run step) =
    HandlerStep-IsEnding _ _ start step (Run-IsEnding closed run)
