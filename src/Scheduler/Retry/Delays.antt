-- ===== src/Scheduler/Retry/Delays.antt =====
-- `get_delay` reads a schedule: each frequency once for each of its retries, in order.
use mercado.Prelude.{
  ℕ, zero, suc, ◌+◌, ◌-◌, ◌<◌, ◌≡◌, refl, none, List, [], ◌∷◌, ◌++◌, ◌⊎◌, inl, inr, arith, length,
  replicate, get_elem?, get_elem?-replicate_append, get_elem?-skip_replicate, ltb, ltb→lt,
  Bool-cases, length-append, length-replicate, ◌↔◌, length-le_of_none, none_of_length-le,
}
use mercado.Prelude.Int.{ℤ, pos, negsuc, add_i32-pos}
use mercado.Scheduler.Retry.{get_delay_from, get_delay}

-- Counts as they are meant: how many retries have this delay.
abbrev pub pairs : List (ℕ × ℤ) → List (ℤ × ℤ)
pairs [] = []
pairs ((count, frequency) ∷ cs) = (pos count, frequency) ∷ pairs cs

-- The delay of the first, second, ... retry.
abbrev pub schedule : List (ℕ × ℤ) → List ℤ
schedule [] = []
schedule ((count, frequency) ∷ cs) = replicate count frequency ++ schedule cs

abbrev pub total : List (ℕ × ℤ) → ℕ
total [] = 0
total ((count, frequency) ∷ cs) = count + total cs

get_delay_from-eq-schedule :
    (n r done : ℕ) (cs : List (ℕ × ℤ))
    → n ≡ suc (done + r)
    → done + total cs < 2147483648
    → get_delay_from (pos n) (pos done) (pairs cs) ≡ get_elem? (schedule cs) r
unfolding get_delay_from
get_delay_from-eq-schedule n r done [] e h = refl
get_delay_from-eq-schedule n r done ((count, frequency) ∷ cs) e h =
    rw (add_i32-pos done count (omega arith)) (elim (Bool-cases (ltb r count)) [
      | inl within ↦ ground (
        arith,
        get_elem?-replicate_append count r frequency (schedule cs) (ltb→lt r count within),
      )
      | inr past ↦ ground (
        arith,
        get_delay_from-eq-schedule n (r - count) (done + count) cs,
        get_elem?-skip_replicate count r frequency (schedule cs),
      )
    ])

-- For counts that are not negative and whose sum is an `i32`, `get_delay` is the entry of the schedule
-- for this retry: none for a retry count of zero or below, the delay number `r` for the retry
-- `r + 1`, and none when the schedule has ended.
pub get_delay-eq-schedule :
    (cs : List (ℕ × ℤ))
    → total cs < 2147483648
    → ((n : ℕ) → get_delay (negsuc n) (pairs cs) ≡ none)
      × (get_delay (pos 0) (pairs cs) ≡ none)
      × ((r : ℕ) → get_delay (pos (suc r)) (pairs cs) ≡ get_elem? (schedule cs) r)
unfolding get_delay
get_delay-eq-schedule cs h =
    (λ n. ground arith, refl, λ r. ground (arith, get_delay_from-eq-schedule (suc r) r 0 cs))

length-schedule : (cs : List (ℕ × ℤ)) → length (schedule cs) ≡ total cs
length-schedule [] = refl
length-schedule ((count, frequency) ∷ cs) = omega (
  arith,
  length-append (replicate count frequency) (schedule cs),
  length-replicate count frequency,
  length-schedule cs,
)

-- For counts that are not negative and whose sum is an `i32`, `get_delay` gives up exactly for a retry
-- count of zero and for one above the number of retries in the mapping.
pub get_delay-eq-none_iff :
    (cs : List (ℕ × ℤ)) (n : ℕ)
    → total cs < 2147483648
    → (get_delay (pos n) (pairs cs) ≡ none) ↔ ((n ≡ 0) ⊎ (total cs < n))
get_delay-eq-none_iff cs zero h = (λ _. inl refl, λ _. (get_delay-eq-schedule cs h).1)
get_delay-eq-none_iff cs (suc r) h = rw ((get_delay-eq-schedule cs h).2 r) (
  λ e. inr (omega (arith, length-schedule cs, length-le_of_none (schedule cs) r e)),
  λ past. none_of_length-le (schedule cs) r (grind (arith, length-schedule cs)),
)
