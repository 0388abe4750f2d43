-- ===== src/Tests/Retries.antt =====
-- Instances for the retry delays; the table of the test in crates/scheduler/src/utils.rs.
use mercado.Prelude.{List, ℕ, ◌∷◌, ◌≡◌, [], get_elem?, none, refl, some, suc, arith}
use mercado.Prelude.Int.{ℤ, pos, negsuc, add_i32}
use mercado.Scheduler.Retry.{get_delay}
use mercado.Scheduler.Retry.Delays.{pairs, schedule, get_delay-eq-schedule}

abbrev tested : List (ℕ × ℤ)
tested = (10, pos 300) ∷ (5, pos 600) ∷ (3, pos 1800) ∷ (2, pos 3600) ∷ []

get_delay_table :
    (get_delay (negsuc 3) (pairs tested) ≡ none)
    × (get_delay (pos 0) (pairs tested) ≡ none)
    × (get_delay (pos 4) (pairs tested) ≡ some (pos 300))
    × (get_delay (pos 10) (pairs tested) ≡ some (pos 300))
    × (get_delay (pos 12) (pairs tested) ≡ some (pos 600))
    × (get_delay (pos 18) (pairs tested) ≡ some (pos 1800))
    × (get_delay (pos 20) (pairs tested) ≡ some (pos 3600))
    × (get_delay (pos 24) (pairs tested) ≡ none)
unfolding get_delay add_i32
get_delay_table = (refl, refl, refl, refl, refl, refl, refl, refl)

get_delay-eq-schedule_example :
    ((n : ℕ) → get_delay (negsuc n) (pairs tested) ≡ none)
    × (get_delay (pos 0) (pairs tested) ≡ none)
    × ((r : ℕ) → get_delay (pos (suc r)) (pairs tested) ≡ get_elem? (schedule tested) r)
get_delay-eq-schedule_example = get_delay-eq-schedule tested (omega arith)
