-- ===== src/Tests/Drains.antt =====
-- Runs of the drainer on the server in memory, and instances of its theorems.
use mercado.Tests.IntText.{parse, to_text}
use mercado.Prelude.Exec.{Exec}
use mercado.Drainer.Kv.{DbOperation, drainer-removes_nothing}
use mercado.Errors.{DrainerError, DatabaseError}
use mercado.Redis.Laws.{IsElsewhereSame}
use mercado.Prelude.Int.{pos}
use mercado.Redis.Fred.{Entries}
use mercado.Prelude.Results.{ok, err}
use mercado.Drainer.Handler.Laws.{HasDistinctIds}
use mercado.Drainer.Streams.{
  get_drainer_stream_name, u8_to_text, is_stream_available, get_stream_key_flag, read_from_stream,
}
use mercado.Tests.RedisServer.{
  Server, insert, server_keys, server_streams, server_store, keep_streams,
}
use mercado.Drainer.Entries.{StreamCodec}
use mercado.Prelude.{
  String, List, if◌then◌else◌, ◌*◌, ◌≡◌, refl, str_eq, ◌+◌, ◌∷◌, [], arith, none, some, str_eq-ne,
}
use mercado.Redis.Replies.{string, integer}
use mercado.Drainer.Handler.{drainer, Machine, drainer_handler, enter}
use mercado.Drainer.Handler.Drains.{drainer-IsDrained, IsDrained}
use mercado.Drainer.Handler.Flag.{
  is_stream_available-takes_flag, drainer_handler-releases_flag, is_none, or_value, IsReleased,
}
use mercado.Drainer.Index.Cycle.{increments-cycle, after}

-- Of three entries, the first is inserted, the second violates uniqueness, the third cannot be read.
abbrev entry : String → List (String × String)
entry name =
    ("typed_sql", name) ∷ ("global_id", "g") ∷ ("request_id", "r") ∷ ("pushed_at", "+1111111") ∷ []

abbrev pub codec : StreamCodec String
codec = record {
  from_str = λ s. if str_eq s "" then none else some s;
  to_string = λ s. if str_eq s "" then none else some s;
  parse = parse;
  to_text = to_text;
}

abbrev stream : String
stream = "{shard_2}_drainer_stream"

abbrev queued : Server
queued = record {
  keys = λ k. if str_eq k "{shard_2}_drainer_stream_in_use" then some "true" else none;
  streams = λ s.
      if str_eq s stream
      then ("1-0", entry "a") ∷ ("1-1", entry "b") ∷ ("2-0", []) ∷ ("3-0", entry "c") ∷ []
      else [];
  table = "b" ∷ [];
}

abbrev machine : Machine Server
machine = record { world = queued; active_tasks = 0; jobs_picked = 0 }

-- Two entries are handled and removed, and the stream stays at the third.
drained :
    let (r, m) = drainer codec insert server_store 3 stream machine in
    (r ≡ ok tt)
    × (m.world.streams stream ≡ ("2-0", []) ∷ ("3-0", entry "c") ∷ [])
    × (m.world.table ≡ "a" ∷ "b" ∷ [])
    × (m.jobs_picked ≡ 1)
unfolding drainer parse
drained = (refl, refl, refl, refl)

second_stream : get_drainer_stream_name server_store 2 ≡ stream
unfolding get_drainer_stream_name
second_stream = refl

names : (u8_to_text 0 ≡ "0") × (u8_to_text 17 ≡ "17") × (u8_to_text 255 ≡ "255")
unfolding u8_to_text
names = (refl, refl, refl)

are_distinct : HasDistinctIds (queued.streams stream)
are_distinct = (
  str_eq-ne "1-0" "" refl,
  (str_eq-ne "1-1" "1-0" refl, (str_eq-ne "2-0" "1-0" refl, (str_eq-ne "3-0" "1-0" refl, tt))),
  (
    str_eq-ne "1-1" "" refl,
    (str_eq-ne "2-0" "1-1" refl, (str_eq-ne "3-0" "1-1" refl, tt)),
    (str_eq-ne "2-0" "" refl, (str_eq-ne "3-0" "2-0" refl, tt), (str_eq-ne "3-0" "" refl, tt, tt)),
  ),
)

drainer-IsDrained_example :
    let (r, m') = drainer codec insert server_store 3 stream machine in
    let (read, w) = read_from_stream server_store stream 3 queued in
    (w.streams stream ≡ queued.streams stream)
    × ((entries : List (String × Entries String))
        → read ≡ ok entries
        → IsDrained codec insert server_store server_streams stream 3 w r m'.world)
    × ((e : DrainerError) → read ≡ err e → m'.world ≡ w)
unfolding server_streams
drainer-IsDrained_example =
    drainer-IsDrained codec insert server_store server_streams stream 3 machine (omega arith)
      are_distinct

is_stream_available-takes_flag_example :
    let (available, s) = is_stream_available server_store 1 queued in
    let flag = get_stream_key_flag server_store 1 in
    (available ≡ is_none (queued.keys flag))
    × (s.keys flag ≡ or_value "true" (queued.keys flag))
    × IsElsewhereSame flag queued.keys s.keys
unfolding server_keys get_stream_key_flag
is_stream_available-takes_flag_example =
    is_stream_available-takes_flag server_store server_keys 1 queued (string "OK") refl

drainer_handler-releases_flag_example :
    let (r, m) = drainer_handler codec insert server_store 2 3 machine in
    (m.active_tasks ≡ 0)
    × IsReleased (ok (integer (pos 1))) r (m.world.keys (get_stream_key_flag server_store 2))
unfolding server_keys get_stream_key_flag get_drainer_stream_name drainer enter parse
drainer_handler-releases_flag_example =
    drainer_handler-releases_flag codec insert server_store server_keys 2 3 machine (omega arith)

increments-cycle_example : after 4 3 (2 * 4 + 1) ≡ (1, 0)
increments-cycle_example = increments-cycle 4 3 2 1 (omega arith) (omega arith)

abbrev no_codec : StreamCodec DbOperation
no_codec = record {
  from_str = λ s. none;
  to_string = λ op. some "";
  parse = λ s. some (pos 7);
  to_text = λ n. "7";
}

abbrev refuse : DbOperation → Exec Server DatabaseError (Unit {0})
refuse op s = (err DatabaseError.others, s)

drainer-removes_nothing_example :
    (drainer no_codec refuse server_store 3 stream machine).1.world.streams stream
    ≡ queued.streams stream
unfolding keep_streams
drainer-removes_nothing_example =
    drainer-removes_nothing no_codec refuse server_store (keep_streams refuse (λ op s t. refl))
      stream 3 machine (omega arith) are_distinct
