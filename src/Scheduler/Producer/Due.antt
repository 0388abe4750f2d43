-- ===== src/Scheduler/Producer/Due.antt =====
-- The tasks that the producer fetches are due.
use mercado.Prelude.Results.{ok, Result-cases}
use mathlib.Core.Path.{subst}
use mercado.Scheduler.Tasks.{between}
use mercado.Config.Settings.{SchedulerSettings}
use mercado.Prelude.{
  ◌≡◌, List, ◌⊎◌, some, true, All, Option-cases, inl, inr, none, arith, ◌++◌, All-map, All-append,
}
use mercado.Scheduler.Producer.{fetch_producer_tasks, ok}
use mercado.Scheduler.Interface.Laws.{TrackerLaws}
use mercado.Scheduler.Interface.{SchedulerInterface}
use mercado.Scheduler.Batch.Wire.{Codec}
use mercado.Scheduler.ProcessTracker.{new, pending, ProcessTracker}

module _ {W Time Json : Type 0} (codec : Codec Time Json) (db : SchedulerInterface W Time Json)
    (laws : TrackerLaws db) where
  -- New or pending, and scheduled between the two times.
  abbrev pub IsDue : (lower upper : Time) → ProcessTracker Time Json → Type 0
  IsDue lower upper p =
      ((p.status ≡ new) ⊎ (p.status ≡ pending))
      × (between db.clock.leb_time lower upper p.schedule_time ≡ true)

  -- If the producer's fetch succeeds, the limits around the present time exist, and every fetched task is
  -- new or pending and is scheduled between them.
  pub fetch_producer_tasks-IsDue :
      (conf : SchedulerSettings) (w : W) (tasks : List (ProcessTracker Time Json))
      → (fetch_producer_tasks codec db conf w).0 ≡ ok tasks
      → (lower : Time) × (upper : Time) × (db.clock.checked_sub
            (db.clock.now w)
            conf.producer.lower_fetch_limit
          ≡ some lower)
        × (db.clock.checked_add (db.clock.now w) conf.producer.upper_fetch_limit ≡ some upper)
        × All (IsDue lower upper) tasks
  unfolding fetch_producer_tasks
  fetch_producer_tasks-IsDue conf w tasks h =
      elim (Option-cases (db.clock.checked_add (db.clock.now w) conf.producer.upper_fetch_limit)) [
        | inl e ↦ absurd (ground arith)
        | inr (upper, e) ↦
            elim (Option-cases
              (db.clock.checked_sub (db.clock.now w) conf.producer.lower_fetch_limit)) [
                | inl e2 ↦ absurd (ground arith)
                | inr (lower, e2) ↦
                    let find = db.tracker.find_processes_by_time_status lower upper in
                    let w1 = (find new none w).1 in
                    elim (Result-cases (find new none w).0) [
                      | inl (new_tasks, e3) ↦ elim (Result-cases (find pending none w1).0) [
                        | inl (pending_tasks, e4) ↦
                            let all : new_tasks ++ pending_tasks ≡ tasks = ground arith in
                            let P = IsDue lower upper in
                            let new_due : All P new_tasks =
                              All-map
                                (λ p.
                                  (p.status ≡ new)
                                  × (between db.clock.leb_time lower upper p.schedule_time ≡ true))
                                P new_tasks (λ p h. (inl h.0, h.1))
                                (laws.find_passes lower upper new none w e3) in
                            let pending_due : All P pending_tasks =
                              All-map
                                (λ p.
                                  (p.status ≡ pending)
                                  × (between db.clock.leb_time lower upper p.schedule_time ≡ true))
                                P pending_tasks (λ p h. (inr h.0, h.1))
                                (laws.find_passes lower upper pending none w1 e4) in
                            (
                              lower,
                              upper,
                              e2,
                              e,
                              subst (All P) all
                                  (All-append P new_tasks pending_tasks new_due pending_due),
                            )
                        | inr (x, e4) ↦ absurd (ground arith)
                      ]
                      | inr (x, e3) ↦ absurd (ground arith)
                    ]
              ]
      ]
