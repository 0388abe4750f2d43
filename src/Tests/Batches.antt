-- ===== src/Tests/Batches.antt =====
-- Instances for batches and their form in the stream. The codec writes numbers in unary and holds one
-- list of tasks, which is enough to run the code.
use mercado.Config.Defaults.{default_scheduler, default_producer}
use mercado.Tests.IntText.{parse-to_text, parse, to_text, ones}
use mercado.Prelude.Results.{ok}
use mercado.Scheduler.Batch.Wire.RoundTrip.{CodecLaws, delivered, from-to_redis}
use mercado.Scheduler.Batch.Wire.{Codec, to_redis_field_value_pairs, from_redis_stream_entry}
use mercado.Prelude.{List, ◌∷◌, [], Option, String, ℕ, none, some, ◌≡◌, map, refl, ◌/◌, ◌*◌}
use mercado.Prelude.Int.{pos, negsuc}
use mercado.Config.Settings.{SchedulerSettings}
use mercado.Scheduler.Batch.{divide, ProcessTrackerBatch}
use mercado.Scheduler.Batch.Division.{IsDivision, divide-IsDivision}
use mercado.Tests.Database.{Task, task}

abbrev pub settings : SchedulerSettings
settings = record (default_scheduler 4) { producer = record default_producer { batch_size = 2 } }

abbrev five : List Task
five = task "a" ∷ task "b" ∷ task "c" ∷ task "d" ∷ task "e" ∷ []

divide-IsDivision_example : IsDivision 2 five (divide "batch" 7000 five settings)
divide-IsDivision_example = divide-IsDivision "batch" 7000 five settings

unfoldable pub to_json : List Task → Option String
to_json (p ∷ []) = some p.id
to_json _ = none

unfoldable pub from_json : String → Option (List Task)
from_json s = some (task s ∷ [])

from-to_json :
    (ts : List Task) (s : String)
    → to_json ts ≡ some s
    → from_json s ≡ some (map (λ p. task p.id) ts)
unfolding to_json from_json
from-to_json [] s h = cc
from-to_json (p ∷ []) s h = let e : p.id ≡ s = cc in rw e
from-to_json (p ∷ q ∷ ts) s h = cc

abbrev pub codec : Codec ℕ String
codec = record {
  to_json = to_json;
  from_json = from_json;
  to_text = to_text;
  parse = parse;
  unix_timestamp = λ t. pos (t / 1000);
  from_unix_timestamp = λ n. elim n [ pos k ↦ some (k * 1000) | negsuc k ↦ none ];
}

codec_laws : CodecLaws codec
codec_laws = record {
  whole_seconds = λ t. t / 1000 * 1000;
  as_written = λ p. task p.id;
  parse-to_text = parse-to_text;
  from-unix_timestamp = λ t. refl;
  from-to_json = from-to_json;
}

abbrev pub batch : ProcessTrackerBatch ℕ String
batch = record {
  id = "1";
  group_name = "SCHEDULER_GROUP";
  stream_name = "SCHEDULER_STREAM";
  connection_name = "";
  created_time = 7300;
  rule = "";
  trackers = task "a" ∷ [];
}

abbrev pub batch_fields : List (String × String)
batch_fields =
    ("id", "1")
    ∷ ("group_name", "SCHEDULER_GROUP")
    ∷ ("stream_name", "SCHEDULER_STREAM")
    ∷ ("connection_name", "")
    ∷ ("created_time", "+1111111")
    ∷ ("rule", "")
    ∷ ("trackers", "a")
    ∷ []

from-to_redis_example :
    from_redis_stream_entry codec (delivered batch_fields)
    ≡ ok (record batch { created_time = 7000; trackers = task "a" ∷ [] })
unfolding to_redis_field_value_pairs to_json to_text ones codec_laws
from-to_redis_example = from-to_redis codec codec_laws batch batch_fields refl
