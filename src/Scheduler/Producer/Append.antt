-- ===== src/Scheduler/Producer/Append.antt =====
-- What appending a batch does to the table of tasks.
use mathlib.Core.Path.{subst}
use mercado.Redis.Replies.{auto_generated_id}
use mercado.Scheduler.Batch.{ProcessTrackerBatch}
use mercado.Prelude.Results.{ok, written, Result-cases}
use mercado.Scheduler.Store.Laws.{update_rows, apply_changes}
use mercado.Scheduler.Tasks.{eq_any}
use mercado.Prelude.{
  List, String, All, ◌≡◌, none, true, ◌∷◌, [], if◌then◌else◌, Bool-cases, map, inl, inr, refl,
  arith,
}
use mercado.Scheduler.Interface.Laws.{TrackerLaws}
use mercado.Scheduler.Interface.{SchedulerInterface}
use mercado.Scheduler.Batch.Wire.{Codec, to_redis_field_value_pairs}
use mercado.Scheduler.ProcessTracker.{processing, ProcessTracker}
use mercado.Scheduler.ProcessTracker.Update.{status_update, from_update}
use mercado.Scheduler.Producer.{
  producer, Codec, SchedulerInterface, List, mark_processing, update_status_and_append,
  ProcessTrackerBatch, append_fields, update_status, after_append,
}

module _ {W Time Json : Type 0} (codec : Codec Time Json) (db : SchedulerInterface W Time Json)
    (laws : TrackerLaws db) where
  -- The rows with one of the ids are being processed.
  abbrev pub IsMarked : List String → ProcessTracker Time Json → Type 0
  IsMarked ids p = (eq_any ids p.id ≡ true) → (p.status ≡ processing)

  update_row-IsMarked :
      (ids : List String) (now : Time) (p : ProcessTracker Time Json)
      → IsMarked ids (
          if eq_any ids p.id
          then apply_changes (from_update now (status_update processing none)) p
          else p)
  unfolding from_update
  update_row-IsMarked ids now p = elim (Bool-cases (eq_any ids p.id)) [
    | inl e ↦ rw e (λ h. refl)
    | inr e ↦ rw e (λ h. cc)
  ]

  update_rows-IsMarked :
      (ids : List String) (now : Time) (ps : List (ProcessTracker Time Json))
      → All
          (IsMarked ids)
          (update_rows (λ p. eq_any ids p.id) (from_update now (status_update processing none)) ps)
  unfolding from_update
  update_rows-IsMarked ids now [] = tt
  update_rows-IsMarked ids now (p ∷ ps) =
      (update_row-IsMarked ids now p, update_rows-IsMarked ids now ps)

  abbrev marked_rows : List String → W → List (ProcessTracker Time Json)
  marked_rows ids w =
      update_rows (λ p. eq_any ids p.id)
        (from_update (db.clock.now w) (status_update processing none)) (laws.rows w)

  mark_processing-rows :
      (ids : List String) (w : W)
      → let (r, w') = mark_processing codec db ids w in
        laws.rows w' ≡ written r (marked_rows ids w) (laws.rows w)
  unfolding mark_processing
  mark_processing-rows ids w = ground (arith, laws.update_status_rows ids processing none w)

  -- A second marking keeps the rows marked, also if it fails.
  mark_processing-keeps :
      (ids : List String) (w : W)
      → All (IsMarked ids) (laws.rows w)
      → All (IsMarked ids) (laws.rows (mark_processing codec db ids w).1)
  mark_processing-keeps ids w h = elim (Result-cases (mark_processing codec db ids w).0) [
    | inl (x, e) ↦
        rw (mark_processing-rows ids w, e) (update_rows-IsMarked ids (db.clock.now w) (laws.rows w))
    | inr (x, e) ↦ rw (mark_processing-rows ids w, e) h
  ]

  mark_processing-marks :
      (ids : List String) (w : W)
      → (mark_processing codec db ids w).0 ≡ ok tt
      → All (IsMarked ids) (laws.rows (mark_processing codec db ids w).1)
  mark_processing-marks ids w e =
      rw (mark_processing-rows ids w, e) (update_rows-IsMarked ids (db.clock.now w) (laws.rows w))

  append-keeps :
      (ids : List String) (stream : String) (fields : List (String × String)) (w : W)
      → All (IsMarked ids) (laws.rows w)
      → All (IsMarked ids) (laws.rows (append_fields codec db ids stream fields w).1)
  unfolding append_fields after_append
  append-keeps ids stream fields w h =
      let w1 = (db.queue.stream_append_entry stream auto_generated_id fields w).1 in
      let kept : All (IsMarked ids) (laws.rows w1) =
        rw (laws.append_keeps stream auto_generated_id fields w) h in
      elim (Result-cases (db.queue.stream_append_entry stream auto_generated_id fields w).0) [
        | inl (x, e) ↦ rw e kept
        | inr (x, e) ↦ rw e (mark_processing-keeps ids w1 kept)
      ]

  -- When the producer appends a batch and its first update of the tasks succeeds, then the rows of its
  -- tasks are being processed, also if the batch is not appended to the stream after that.
  pub update_status_and_append-marks :
      (batch : ProcessTrackerBatch Time Json) (w : W)
      → let ids = map (λ p. p.id) batch.trackers in
        (mark_processing codec db ids w).0 ≡ ok tt
        → let w' = (update_status_and_append codec db producer batch w).1 in
          All (IsMarked ids) (laws.rows w')
  unfolding update_status_and_append update_status
  update_status_and_append-marks batch w h =
      let ids = map (λ p. p.id) batch.trackers in
      let w1 = (mark_processing codec db ids w).1 in
      let marked = mark_processing-marks ids w h in
      elim (Result-cases (to_redis_field_value_pairs codec batch)) [
        | inl (fields, e) ↦
            let same : (append_fields codec db ids batch.stream_name fields w1).1
                ≡ (update_status_and_append codec db producer batch w).1 =
              ground arith in
            subst (λ w'. All (IsMarked ids) (laws.rows w')) same
              (append-keeps ids batch.stream_name fields w1 marked)
        | inr (x, e) ↦
            let same : w1 ≡ (update_status_and_append codec db producer batch w).1 = ground arith in
            subst (λ w'. All (IsMarked ids) (laws.rows w')) same marked
      ]
