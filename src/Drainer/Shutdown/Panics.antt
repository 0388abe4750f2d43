-- ===== src/Drainer/Shutdown/Panics.antt =====
-- A drainer process in which a handler has panicked before its `fetch_sub`.
use mercado.Prelude.{true, ℕ, ◌≢◌, ◌<◌, ◌≡◌, ◌≤◌, arith, List, [], ◌∷◌, length}
use mercado.Drainer.Shutdown.{Process, HandlerPhase, Listener, listener}
use mercado.Drainer.Shutdown.Counting.{total, counted}

abbrev pub panics : HandlerPhase → ℕ
panics HandlerPhase.panicked = 1
panics _ = 0

-- The loop runs, the listener has not seen the count 0, and a handler has panicked.
abbrev pub IsUnclosed : Process → Type 0
IsUnclosed p = (p.running ≡ true) × (p.listener ≢ Listener.closing) × (0 < total panics p.handlers)

between :
    (hs : List HandlerPhase) → (total panics hs ≤ total counted hs) × (total counted hs ≤ length hs)
between [] = (omega arith, omega arith)
between (HandlerPhase.spawned ∷ hs) = (omega (arith, between hs), omega (arith, between hs))
between (HandlerPhase.inside ∷ hs) = (omega (arith, between hs), omega (arith, between hs))
between (HandlerPhase.picked ∷ hs) = (omega (arith, between hs), omega (arith, between hs))
between (HandlerPhase.left ∷ hs) = (omega (arith, between hs), omega (arith, between hs))
between (HandlerPhase.panicked ∷ hs) = (omega (arith, between hs), omega (arith, between hs))

-- No fewer handlers and no fewer that have panicked.
abbrev IsMore : (before after : List HandlerPhase) → Type 0
IsMore before after = (length before ≤ length after) × (total panics before ≤ total panics after)

-- A step that touches neither `running` nor the listener.
abbrev IsOther : (before after : Process) → Type 0
IsOther p q = (q.running ≡ p.running) × (q.listener ≡ p.listener) × IsMore p.handlers q.handlers
