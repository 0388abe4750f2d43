-- ===== src/Scheduler/Batch/Wire.antt =====
-- `to_redis_field_value_pairs` and `from_redis_stream_entry` of
-- crates/scheduler/src/consumer/types/batch.rs. JSON, the numbers' text and the calendar are other
-- packages' (serde_json, std, time): the record `Codec` stands for them.
pub mod RoundTrip
use mathlib.Core.Option
use mercado.Prelude.{String, Option, List, none, some, ◌∷◌, [], if◌then◌else◌, str_eq}
use mercado.Prelude.Int.{ℤ}
use mercado.Prelude.Results.{Result, ok, err, ok_or, ◌>>=◌}
use mercado.Errors.{ProcessTrackerError}
use mercado.Scheduler.ProcessTracker.{ProcessTracker}
use mercado.Scheduler.Batch.{ProcessTrackerBatch}

pub record Codec (Time Json : Type 0) : Type 0 where
  -- `serde_json::to_string` and `from_str` at `Vec<ProcessTracker>`
  pub to_json : List (ProcessTracker Time Json) → Option String
  pub from_json : String → Option (List (ProcessTracker Time Json))
  -- `i64`'s `to_string` and `parse`
  pub to_text : ℤ → String
  pub parse : String → Option ℤ
  -- `assume_utc().unix_timestamp()`, and `OffsetDateTime::from_unix_timestamp` with its date and time
  pub unix_timestamp : Time → ℤ
  pub from_unix_timestamp : ℤ → Option Time

-- `HashMap::remove`: the value, and the map without the key.
unfoldable pub remove_value : String → List (String × Option String) → Option (Option String)
remove_value key [] = none
remove_value key ((k, v) ∷ entry) = if str_eq k key then some v else remove_value key entry

unfoldable pub remove_key : String → List (String × Option String) → List (String × Option String)
remove_key key [] = []
remove_key key ((k, v) ∷ entry) =
    let rest = remove_key key entry in if str_eq k key then rest else (k, v) ∷ rest

-- `.flatten()`
unfoldable pub flatten : Option (Option String) → Option String
flatten none = none
flatten (some v) = v

-- `entry.remove(key).flatten().get_required_value(key)` with its error.
unfoldable pub required :
    String
    → List (String × Option String)
    → Result ProcessTrackerError (String × List (String × Option String))
unfolding remove_value remove_key flatten
required key entry = do
  value ← ok_or (flatten (remove_value key entry)) ProcessTrackerError.missing_required_field
  ok (value, remove_key key entry)

module _ {Time Json : Type 0} (codec : Codec Time Json) where
  unfoldable pub to_redis_field_value_pairs :
      ProcessTrackerBatch Time Json → Result ProcessTrackerError (List (String × String))
  to_redis_field_value_pairs b = do
    trackers ← ok_or (codec.to_json b.trackers) ProcessTrackerError.serialization_failed
    ok (
        ("id", b.id)
        ∷ ("group_name", b.group_name)
        ∷ ("stream_name", b.stream_name)
        ∷ ("connection_name", b.connection_name)
        ∷ ("created_time", codec.to_text (codec.unix_timestamp b.created_time))
        ∷ ("rule", b.rule)
        ∷ ("trackers", trackers)
        ∷ [])

  unfoldable pub from_redis_stream_entry :
      List (String × Option String) → Result ProcessTrackerError (ProcessTrackerBatch Time Json)
  unfolding required
  from_redis_stream_entry entry = do
    (id, entry1) ← required "id" entry
    (group_name, entry2) ← required "group_name" entry1
    (stream_name, entry3) ← required "stream_name" entry2
    (connection_name, entry4) ← required "connection_name" entry3
    (created_text, entry5) ← required "created_time" entry4
    timestamp ← ok_or (codec.parse created_text) ProcessTrackerError.deserialization_failed
    created_time ←
        ok_or (codec.from_unix_timestamp timestamp) ProcessTrackerError.missing_required_field
    (rule, entry6) ← required "rule" entry5
    (trackers_text, entry7) ← required "trackers" entry6
    trackers ← ok_or (codec.from_json trackers_text) ProcessTrackerError.deserialization_failed
    ok (record {
      id = id;
      group_name = group_name;
      stream_name = stream_name;
      connection_name = connection_name;
      created_time = created_time;
      rule = rule;
      trackers = trackers;
    })
