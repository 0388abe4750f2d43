-- ===== src/Drainer/Shutdown/Counting.antt =====
-- The counter of active tasks and the stream of a drainer process.
use mathlib.Core.Path.{subst, ap}
use mercado.Prelude.{true, ℕ, sym, ◌<◌, ◌≡◌, ◌≤◌, arith, ◌%◌, ◌+◌, ◌∙◌, refl, List, [], ◌∷◌, ◌++◌}
use mercado.Drainer.Shutdown.{
  Process, from_conf, next_stream, enter_handler, leave_handler, close, LoopStep, HandlerStep, Run,
  ListenerStep, HandlerPhase, go_on, stop, see_none_active, pick, panic, is_active, spawn_one,
  spawn_handler, skip_stream, receive, terminate, stop_listening, enter, leave, here, loop, handler,
  listener, move, pick_in_handler, panic_in_handler,
}
use mercado.Drainer.Index.{increment_stream_index}

-- The sum of a number for each handler.
abbrev pub total : (HandlerPhase → ℕ) → List HandlerPhase → ℕ
total f [] = 0
total f (h ∷ hs) = f h + total f hs

pub total-append :
    (f : HandlerPhase → ℕ) (front : List HandlerPhase) (h : HandlerPhase) (rest : List HandlerPhase)
    → total f (front ++ h ∷ rest) ≡ total f front + f h + total f rest
total-append f [] h rest = omega arith
total-append f (x ∷ front) h rest = omega (arith, total-append f front h rest)

-- After `fetch_add` and not after `fetch_sub`.
abbrev pub counted : HandlerPhase → ℕ
counted HandlerPhase.spawned = 0
counted HandlerPhase.inside = 1
counted HandlerPhase.picked = 1
counted HandlerPhase.left = 0
counted HandlerPhase.panicked = 1

pub counted-is_active : (h : HandlerPhase) → is_active h ≡ true → counted h ≡ 1
counted-is_active HandlerPhase.spawned e = cc
counted-is_active HandlerPhase.inside e = refl
counted-is_active HandlerPhase.picked e = refl
counted-is_active HandlerPhase.left e = cc
counted-is_active HandlerPhase.panicked e = cc

abbrev pub IsCounted : (total_streams : ℕ) → Process → Type 0
IsCounted total_streams p =
    (p.active_tasks ≡ total counted p.handlers % 18446744073709551616)
    × (p.stream_index < total_streams)

index-inside : (i j n : ℕ) → i < n → n ≤ 255 → (increment_stream_index i j n).0 < n
unfolding increment_stream_index
index-inside i j n h b = ground arith

LoopStep-IsCounted :
    {n : ℕ} {p q : Process} → n ≤ 255 → LoopStep n p q → IsCounted n p → IsCounted n q
unfolding next_stream spawn_one
LoopStep-IsCounted {n} b (go_on at on e) h = subst (IsCounted n) (sym e) h
LoopStep-IsCounted {n} b (stop at off e) h = subst (IsCounted n) (sym e) h
LoopStep-IsCounted {n} {p} b (spawn_handler at e) (c, i) =
    subst (IsCounted n) (sym e)
      (omega (arith, c, total-append counted p.handlers HandlerPhase.spawned []), i)
LoopStep-IsCounted {n} b (skip_stream at e) h = subst (IsCounted n) (sym e) h
LoopStep-IsCounted {n} {p} b (move at e) (c, i) =
    subst (IsCounted n) (sym e) (c, index-inside p.stream_index p.jobs_picked n i b)

ListenerStep-IsCounted : {n : ℕ} {p q : Process} → ListenerStep p q → IsCounted n p → IsCounted n q
unfolding close
ListenerStep-IsCounted {n} (receive at e) h = subst (IsCounted n) (sym e) h
ListenerStep-IsCounted {n} (see_none_active at idle e) h = subst (IsCounted n) (sym e) h
ListenerStep-IsCounted {n} (terminate at e) h = subst (IsCounted n) (sym e) h
ListenerStep-IsCounted {n} (stop_listening at e) h = subst (IsCounted n) (sym e) h

-- The count before a step of the handler between `front` and `rest`.
count-before :
    {handlers : List HandlerPhase} (h : HandlerPhase) (front rest : List HandlerPhase)
    → handlers ≡ front ++ h ∷ rest
    → total counted handlers ≡ total counted front + counted h + total counted rest
count-before h front rest e = ap (total counted) e ∙ total-append counted front h rest

HandlerStep-IsCounted : {n : ℕ} {p q : Process} → HandlerStep p q → IsCounted n p → IsCounted n q
unfolding enter_handler leave_handler pick_in_handler panic_in_handler
HandlerStep-IsCounted {n} (enter front rest at e) (c, i) = subst (IsCounted n) (sym e) (
  omega (
    arith,
    c,
    count-before HandlerPhase.spawned front rest at,
    total-append counted front HandlerPhase.inside rest,
  ),
  i,
)
HandlerStep-IsCounted {n} (pick front rest at e) (c, i) = subst (IsCounted n) (sym e) (
  omega (
    arith,
    c,
    count-before HandlerPhase.inside front rest at,
    total-append counted front HandlerPhase.picked rest,
  ),
  i,
)
HandlerStep-IsCounted {n} (leave h front rest active at e) (c, i) = subst (IsCounted n) (sym e) (
  omega (
    arith,
    c,
    counted-is_active h active,
    count-before h front rest at,
    total-append counted front HandlerPhase.left rest,
  ),
  i,
)
HandlerStep-IsCounted {n} (panic h front rest active at e) (c, i) = subst (IsCounted n) (sym e) (
  omega (
    arith,
    c,
    counted-is_active h active,
    count-before h front rest at,
    total-append counted front HandlerPhase.panicked rest,
  ),
  i,
)

pub Run-keeps_count :
    {total_streams : ℕ} {start : Process} {n : ℕ} {p : Process}
    → total_streams ≤ 255
    → IsCounted total_streams start
    → Run total_streams start n p
    → IsCounted total_streams p
Run-keeps_count small counts here = counts
Run-keeps_count small counts (loop run step) =
    LoopStep-IsCounted small step (Run-keeps_count small counts run)
Run-keeps_count small counts (listener run step) =
    ListenerStep-IsCounted step (Run-keeps_count small counts run)
Run-keeps_count small counts (handler run step) =
    HandlerStep-IsCounted step (Run-keeps_count small counts run)

-- In every state that a drainer with 1 to 255 partitions reaches from its start, the count of active
-- tasks is, as a u64, the number of handlers that have counted themselves in and not out, those
-- that have panicked included, and the next stream is one of the partitions.
pub Run-IsCounted :
    {total_streams n : ℕ} {p : Process}
    → 0 < total_streams
    → total_streams ≤ 255
    → Run total_streams from_conf n p
    → IsCounted total_streams p
Run-IsCounted positive small run = Run-keeps_count small (omega arith, positive) run
