-- ===== src/Scheduler/Batch/Division.antt =====
-- `divide` splits the tasks into batches without losing, repeating or reordering one.
use mercado.Config.Settings.{SchedulerSettings}
use mercado.Prelude.{
  List, ℕ, length, ◌∷◌, ◌++◌, ◌≤◌, [], suc, ◌≡◌, drop, zero, arith, length-drop, take-append-drop,
  refl, String, length-take, map, ◌≢◌, none, take, some, Option, dec_lt,
}
use mercado.Scheduler.ProcessTracker.{ProcessTracker}
use mercado.Scheduler.Batch.{
  ProcessTrackerBatch, chunks_within, batch_of, divide_into_batches, divide, List, ℕ,
}

module _ {ℓ} {A : Type ℓ} where
  abbrev pub concat : List (List A) → List A
  concat [] = []
  concat (xs ∷ xss) = xs ++ concat xss

  concat-chunks_within :
      (fuel k : ℕ) (xs : List A) → length xs ≤ fuel → concat (chunks_within fuel (suc k) xs) ≡ xs
  unfolding chunks_within
  concat-chunks_within zero k [] h = refl
  concat-chunks_within zero k (x ∷ xs) h = elim h [ ]
  concat-chunks_within (suc fuel) k [] h = refl
  concat-chunks_within (suc fuel) k (x ∷ xs) h =
      rw (concat-chunks_within fuel k (drop k xs) (omega (arith, length-drop k xs)))
        (rw (take-append-drop k xs))

  -- Every part has 1 to `size` elements, and each that another follows has `size`.
  abbrev pub AreFull : ℕ → List (List A) → Type ℓ
  AreFull size [] = Unit
  AreFull size (xs ∷ xss) =
      (1 ≤ length xs) × (length xs ≤ size) × (xss ≢ [] → length xs ≡ size) × AreFull size xss

  chunks_within-nil : (fuel k : ℕ) (xs : List A) → length xs ≤ 0 → chunks_within fuel k xs ≡ []
  unfolding chunks_within
  chunks_within-nil zero k xs h = refl
  chunks_within-nil (suc fuel) k [] h = refl
  chunks_within-nil (suc fuel) k (x ∷ xs) h = elim h [ ]

  take-fills :
      (fuel k : ℕ) (xs : List A)
      → chunks_within fuel (suc k) (drop k xs) ≢ []
      → length (take k xs) ≡ k
  take-fills fuel k xs h = elim (dec_lt (length xs) (suc k)) [
    | yes short ↦
        absurd (h (chunks_within-nil fuel (suc k) (drop k xs) (omega (arith, length-drop k xs))))
    | no long ↦ omega (arith, length-take k xs)
  ]

  AreFull-chunks_within :
      (fuel k : ℕ) (xs : List A)
      → length xs ≤ fuel
      → AreFull (suc k) (chunks_within fuel (suc k) xs)
  unfolding chunks_within
  AreFull-chunks_within zero k xs h = tt
  AreFull-chunks_within (suc fuel) k [] h = tt
  AreFull-chunks_within (suc fuel) k (x ∷ xs) h = (
    omega arith,
    omega (arith, length-take k xs),
    λ more. omega (arith, take-fills fuel k xs more),
    AreFull-chunks_within fuel k (drop k xs) (omega (arith, length-drop k xs)),
  )

abbrev pub trackers :
    {Time Json : Type 0}
    → List (ProcessTrackerBatch Time Json)
    → List (List (ProcessTracker Time Json))
trackers = map (λ b. b.trackers)

trackers-batch_of :
    {Time Json : Type 0} (batch_id : String) (now : Time) (conf : SchedulerSettings)
    (xss : List (List (ProcessTracker Time Json)))
    → trackers (map (batch_of batch_id now conf) xss) ≡ xss
unfolding batch_of
trackers-batch_of batch_id now conf [] = refl
trackers-batch_of batch_id now conf (xs ∷ xss) = rw (trackers-batch_of batch_id now conf xss)

-- No result for batch size 0; otherwise batches that together hold the tasks in order, each once, and
-- of which all but the last are full.
abbrev pub IsDivision :
    {Time Json : Type 0}
    → ℕ
    → List (ProcessTracker Time Json)
    → Option (List (ProcessTrackerBatch Time Json))
    → Type 0
IsDivision size tasks none = size ≡ 0
IsDivision size tasks (some batches) =
    (size ≢ 0) × (concat (trackers batches) ≡ tasks) × AreFull size (trackers batches)

divide_into_batches-IsDivision :
    {Time Json : Type 0} (batch_id : String) (size : ℕ) (tasks : List (ProcessTracker Time Json))
    (now : Time) (conf : SchedulerSettings)
    → IsDivision size tasks (divide_into_batches batch_id size tasks now conf)
unfolding divide_into_batches
divide_into_batches-IsDivision batch_id zero tasks now conf = refl
divide_into_batches-IsDivision batch_id (suc k) tasks now conf = (
  λ e. omega arith,
  rw (trackers-batch_of batch_id now conf)
      (concat-chunks_within (length tasks) k tasks (omega arith)),
  rw (trackers-batch_of batch_id now conf)
      (AreFull-chunks_within (length tasks) k tasks (omega arith)),
)

-- `divide` panics exactly for a configured batch size of 0. Otherwise it returns batches that together
-- hold the tasks in order, each task once; every batch has 1 to `batch_size` tasks, and only the last
-- has fewer than `batch_size`.
pub divide-IsDivision :
    {Time Json : Type 0} (batch_id : String) (now : Time) (tasks : List (ProcessTracker Time Json))
    (conf : SchedulerSettings)
    → IsDivision conf.producer.batch_size tasks (divide batch_id now tasks conf)
unfolding divide
divide-IsDivision batch_id now tasks conf =
    divide_into_batches-IsDivision batch_id conf.producer.batch_size tasks now conf
