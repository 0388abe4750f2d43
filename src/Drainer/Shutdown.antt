-- ===== src/Drainer/Shutdown.antt =====
-- The life of a drainer process: `Handler::spawn` and `Handler::shutdown_listener` of
-- crates/drainer/src/handler.rs, which share `running` and `active_tasks`, and the handlers that are spawned.
-- Each access to what they share is a step of its own. What Redis, the database, the clock and the
-- channel of signals do is any choice of a step.
pub mod Closing
pub mod Counting
pub mod Measures
pub mod Panics
use mercado.Prelude.{Bool, false, true, ℕ, ◌+◌, ◌≡◌, ◌%◌, List, [], ◌∷◌, ◌++◌, suc}
use mercado.Drainer.Index.{increment_stream_index}

-- Where `spawn` is: at its `while`; awaiting `is_stream_available`, after `running` was true; before
-- the increment of the stream, after a handler was spawned or none; and after the loop. The sleep
-- is a wait at the `while`.
pub data SpawnLoop : Type 0 where
  checking asking moving ended : SpawnLoop

-- Where the listener is: at `rx.recv()`, in the loop that waits for the active tasks, before `close`
-- after it has read that there is none, or at its end.
pub data Listener : Type 0 where
  receiving awaiting closing finished : Listener

-- Where a spawned handler is: before `fetch_add`; after it, before and after it has picked a job;
-- after `fetch_sub`; or at a panic before `fetch_sub`, as that of `pg_connection`.
pub data HandlerPhase : Type 0 where
  spawned inside picked left panicked : HandlerPhase

pub record Process : Type 0 where
  pub running : Bool
  pub active_tasks : ℕ
  pub stream_index : ℕ
  pub jobs_picked : ℕ
  pub spawn_loop : SpawnLoop
  pub listener : Listener
  -- in the order in which they were spawned
  pub handlers : List HandlerPhase

-- `Handler::from_conf`, at the start of `spawn`.
abbrev pub from_conf : Process
from_conf = record {
  running = true;
  active_tasks = 0;
  stream_index = 0;
  jobs_picked = 0;
  spawn_loop = SpawnLoop.checking;
  listener = Listener.receiving;
  handlers = [];
}

-- The end of an iteration of the loop in `spawn`.
unfoldable pub next_stream : (total_streams : ℕ) → Process → Process
next_stream total_streams p =
    let (index, jobs) = increment_stream_index p.stream_index p.jobs_picked total_streams in
    record p { stream_index = index; jobs_picked = jobs; spawn_loop = SpawnLoop.checking }

unfoldable pub spawn_one : Process → Process
spawn_one p = record p {
  handlers = p.handlers ++ HandlerPhase.spawned ∷ [];
  spawn_loop = SpawnLoop.moving;
}

unfoldable pub close : Process → Process
close p = record p { running = false }

-- `fetch_add` and `fetch_sub` of `drainer_handler`, and `fetch_add` of `jobs_picked` in `drainer`, in
-- a handler with `front` before it and `rest` after it.
module _ (front rest : List HandlerPhase) where
  unfoldable pub enter_handler : Process → Process
  enter_handler p = record p {
    handlers = front ++ HandlerPhase.inside ∷ rest;
    active_tasks = (p.active_tasks + 1) % 18446744073709551616;
  }

  unfoldable pub pick_in_handler : Process → Process
  pick_in_handler p = record p {
    handlers = front ++ HandlerPhase.picked ∷ rest;
    jobs_picked = (p.jobs_picked + 1) % 256;
  }

  unfoldable pub leave_handler : Process → Process
  leave_handler p = record p {
    handlers = front ++ HandlerPhase.left ∷ rest;
    active_tasks = (p.active_tasks + 18446744073709551615) % 18446744073709551616;
  }

  unfoldable pub panic_in_handler : Process → Process
  panic_in_handler p = record p { handlers = front ++ HandlerPhase.panicked ∷ rest }

abbrev pub is_active : HandlerPhase → Bool
is_active HandlerPhase.inside = true
is_active HandlerPhase.picked = true
is_active _ = false

-- A step of the loop in `spawn`.
pub data LoopStep (total_streams : ℕ) (p q : Process) : Type 0 where
  go_on :
      p.spawn_loop ≡ SpawnLoop.checking
      → p.running ≡ true
      → q ≡ record p { spawn_loop = SpawnLoop.asking }
      → LoopStep total_streams p q
  stop :
      p.spawn_loop ≡ SpawnLoop.checking
      → p.running ≡ false
      → q ≡ record p { spawn_loop = SpawnLoop.ended }
      → LoopStep total_streams p q
  spawn_handler : p.spawn_loop ≡ SpawnLoop.asking → q ≡ spawn_one p → LoopStep total_streams p q
  skip_stream :
      p.spawn_loop ≡ SpawnLoop.asking
      → q ≡ record p { spawn_loop = SpawnLoop.moving }
      → LoopStep total_streams p q
  move :
      p.spawn_loop ≡ SpawnLoop.moving → q ≡ next_stream total_streams p → LoopStep total_streams p q

-- A step of `shutdown_listener`. It receives again after a `close`: signals may be in the channel.
pub data ListenerStep (p q : Process) : Type 0 where
  receive :
      p.listener ≡ Listener.receiving
      → q ≡ record p { listener = Listener.awaiting }
      → ListenerStep p q
  see_none_active :
      p.listener ≡ Listener.awaiting
      → p.active_tasks ≡ 0
      → q ≡ record p { listener = Listener.closing }
      → ListenerStep p q
  terminate :
      p.listener ≡ Listener.closing
      → q ≡ record (close p) { listener = Listener.receiving }
      → ListenerStep p q
  stop_listening :
      p.listener ≡ Listener.receiving
      → q ≡ record p { listener = Listener.finished }
      → ListenerStep p q

-- A step of one of the handlers.
pub data HandlerStep (p q : Process) : Type 0 where
  enter :
      (front rest : List HandlerPhase)
      → p.handlers ≡ front ++ HandlerPhase.spawned ∷ rest
      → q ≡ enter_handler front rest p
      → HandlerStep p q
  pick :
      (front rest : List HandlerPhase)
      → p.handlers ≡ front ++ HandlerPhase.inside ∷ rest
      → q ≡ pick_in_handler front rest p
      → HandlerStep p q
  leave :
      (phase : HandlerPhase) (front rest : List HandlerPhase)
      → is_active phase ≡ true
      → p.handlers ≡ front ++ phase ∷ rest
      → q ≡ leave_handler front rest p
      → HandlerStep p q
  panic :
      (phase : HandlerPhase) (front rest : List HandlerPhase)
      → is_active phase ≡ true
      → p.handlers ≡ front ++ phase ∷ rest
      → q ≡ panic_in_handler front rest p
      → HandlerStep p q

-- A run, with the number of steps of the loop and of handlers in it.
pub data Run (total_streams : ℕ) (p : Process) : ℕ → Process → Type 0 where
  here : Run total_streams p 0 p
  loop :
      {n : ℕ} {q r : Process}
      → Run total_streams p n q
      → LoopStep total_streams q r
      → Run total_streams p (suc n) r
  listener :
      {n : ℕ} {q r : Process} → Run total_streams p n q → ListenerStep q r → Run total_streams p n r
  handler :
      {n : ℕ} {q r : Process}
      → Run total_streams p n q
      → HandlerStep q r
      → Run total_streams p (suc n) r
