-- ===== src/Scheduler/Batch/Wire/RoundTrip.antt =====
-- A batch that was written to the stream is read back.
use mercado.Prelude.{List, String, ◌≡◌, Option, map, some, Option-cases, inl, inr, [], arith, ◌∷◌}
use mercado.Prelude.Int.{ℤ}
use mercado.Prelude.Results.{ok}
use mercado.Scheduler.ProcessTracker.{ProcessTracker}
use mercado.Scheduler.Batch.{ProcessTrackerBatch, List, ℤ}
use mercado.Scheduler.Batch.Wire.{Codec, to_redis_field_value_pairs, from_redis_stream_entry}

-- What the code relies on: text and JSON are read back, where a timestamp loses the part of a second
-- (`whole_seconds`) and a row in JSON the digits of its times that the format does not write
-- (`as_written`).
pub record CodecLaws {Time Json : Type 0} (codec : Codec Time Json) : Type 0 where
  pub whole_seconds : Time → Time
  pub as_written : ProcessTracker Time Json → ProcessTracker Time Json
  pub parse-to_text : (n : ℤ) → codec.parse (codec.to_text n) ≡ some n
  pub from-unix_timestamp :
      (t : Time) → codec.from_unix_timestamp (codec.unix_timestamp t) ≡ some (whole_seconds t)
  pub from-to_json :
      (ts : List (ProcessTracker Time Json)) (s : String)
      → codec.to_json ts ≡ some s
      → codec.from_json s ≡ some (map as_written ts)

-- The fields as a consumer's XREADGROUP returns them.
abbrev pub delivered : List (String × String) → List (String × Option String)
delivered [] = []
delivered ((k, v) ∷ fields) = (k, some v) ∷ delivered fields

module _ {Time Json : Type 0} (codec : Codec Time Json) (laws : CodecLaws codec) where
  abbrev written : ProcessTrackerBatch Time Json → String → List (String × String)
  written b trackers =
      ("id", b.id)
      ∷ ("group_name", b.group_name)
      ∷ ("stream_name", b.stream_name)
      ∷ ("connection_name", b.connection_name)
      ∷ ("created_time", codec.to_text (codec.unix_timestamp b.created_time))
      ∷ ("rule", b.rule)
      ∷ ("trackers", trackers)
      ∷ []

  abbrev read_back : ProcessTrackerBatch Time Json → ProcessTrackerBatch Time Json
  read_back b = record b {
    created_time = laws.whole_seconds b.created_time;
    trackers = map laws.as_written b.trackers;
  }

  from_redis-written :
      (b : ProcessTrackerBatch Time Json) (s : String)
      → codec.to_json b.trackers ≡ some s
      → from_redis_stream_entry codec (delivered (written b s)) ≡ ok (read_back b)
  unfolding from_redis_stream_entry
  from_redis-written b s e = rw (
    laws.parse-to_text (codec.unix_timestamp b.created_time),
    laws.from-unix_timestamp b.created_time,
    laws.from-to_json b.trackers s e,
  )

  -- If a batch can be written, then reading what was written gives the batch back, but for the creation
  -- time, which is cut to whole seconds, and the rows, which come back as JSON writes them.
  pub from-to_redis :
      (b : ProcessTrackerBatch Time Json) (fields : List (String × String))
      → to_redis_field_value_pairs codec b ≡ ok fields
      → from_redis_stream_entry codec (delivered fields)
        ≡ ok (record b {
          created_time = laws.whole_seconds b.created_time;
          trackers = map laws.as_written b.trackers;
        })
  unfolding to_redis_field_value_pairs
  from-to_redis b fields h = elim (Option-cases (codec.to_json b.trackers)) [
    | inl e ↦ ground arith
    | inr (s, e) ↦
        let same : written b s ≡ fields = ground arith in rw (← same) (from_redis-written b s e)
  ]
