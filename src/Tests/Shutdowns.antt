-- ===== src/Tests/Shutdowns.antt =====
-- Runs of a drainer with four partitions.
use mercado.Prelude.{arith, false, refl, ◌∷◌, []}
use mercado.Drainer.Shutdown.{
  Process, Listener, SpawnLoop, HandlerPhase, from_conf, Run, go_on, spawn_handler, move, receive,
  see_none_active, terminate, enter, pick, panic, here, loop, listener, handler, next_stream, close,
  enter_handler, pick_in_handler, panic_in_handler, spawn_one,
}
use mercado.Drainer.Shutdown.Counting.{Run-IsCounted, IsCounted}
use mercado.Drainer.Shutdown.Measures.{IsEnding}
use mercado.Drainer.Shutdown.Closing.{Run-IsEnding}
use mercado.Drainer.Index.{increment_stream_index}

abbrev asking : Process
asking = record from_conf { spawn_loop = SpawnLoop.asking }

abbrev closed : Process
closed = record asking { running = false }

abbrev closed_spawned : Process
closed_spawned = record closed {
  spawn_loop = SpawnLoop.checking;
  stream_index = 1;
  handlers = HandlerPhase.spawned ∷ [];
}

abbrev closed_inside : Process
closed_inside = record closed_spawned { handlers = HandlerPhase.inside ∷ []; active_tasks = 1 }

-- The drainer closes while the loop awaits `is_stream_available`: no task is active.
to_closed : Run 4 from_conf 1 closed
unfolding close
to_closed =
    listener {q = record asking { listener = Listener.closing }}
      (listener {q = record asking { listener = Listener.awaiting }}
        (listener {q = asking} (loop here (go_on refl refl refl)) (receive refl refl))
        (see_none_active refl refl refl))
      (terminate refl refl)

-- It spawns one more handler and moves by one stream, and the handler begins.
to_inside : Run 4 closed 3 closed_inside
unfolding spawn_one next_stream increment_stream_index enter_handler
to_inside =
    handler {q = closed_spawned}
      (loop {q = spawn_one closed} (loop {q = closed} here (spawn_handler refl refl))
        (move refl refl))
      (enter [] [] refl refl)

abbrev one_spawned : Process
one_spawned = record asking { spawn_loop = SpawnLoop.moving; handlers = HandlerPhase.spawned ∷ [] }

abbrev one_panicked : Process
one_panicked = record one_spawned {
  handlers = HandlerPhase.panicked ∷ [];
  active_tasks = 1;
  jobs_picked = 1;
}

-- A handler panics after it has picked a job.
to_panicked : Run 4 from_conf 5 one_panicked
unfolding spawn_one enter_handler pick_in_handler panic_in_handler
to_panicked =
    handler {q = pick_in_handler [] [] (enter_handler [] [] one_spawned)}
      (handler {q = enter_handler [] [] one_spawned}
        (handler {q = one_spawned}
          (loop {q = asking} (loop here (go_on refl refl refl)) (spawn_handler refl refl))
          (enter [] [] refl refl))
        (pick [] [] refl refl))
      (panic HandlerPhase.picked [] [] refl refl refl)

Run-IsCounted_example : IsCounted 4 one_panicked
Run-IsCounted_example = Run-IsCounted (omega arith) (omega arith) to_panicked

Run-IsEnding_example : IsEnding 4 closed 3 closed_inside
Run-IsEnding_example = Run-IsEnding refl to_inside

-- A signal is received after the panic.
abbrev panicked_awaiting : Process
panicked_awaiting = record one_panicked { listener = Listener.awaiting }
