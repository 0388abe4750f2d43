-- ===== src/Drainer/Handler.antt =====
-- `drainer` and `drainer_handler` of crates/drainer/src/handler.rs, and `execute_query` of
-- crates/drainer/src/query.rs.
pub mod Laws
pub mod Loop
pub mod Trim
pub mod Drains
pub mod Flag
use mercado.Redis.Fred.{Entries}
use mercado.Prelude.Results.{Result, ok, err}
use mercado.Drainer.Streams.{
  DrainerStore, make_stream_available, read_from_stream, trim_from_stream, get_drainer_stream_name,
  get_stream_key_flag,
}
use mercado.Prelude.Int.{ℤ}
use mercado.Errors.{DatabaseError, DrainerError, RedisError}
use mercado.Drainer.Entries.{StreamCodec, from_hashmap, ParsingError, StreamData}
use mercado.Prelude.Exec.{Exec, ◌>>=◌, ◌>>◌, pure, lift}
use mercado.Prelude.{
  ℕ, ◌+◌, ◌%◌, ◌^◌, ◌-◌, List, String, [], if◌then◌else◌, ◌∷◌, str_eq, Bool, true, false,
}

-- The world with the two atomic counters that the handlers share: `u64` and `u8`, which wrap around.
pub record Machine (W : Type 0) : Type 0 where
  pub world : W
  pub active_tasks : ℕ
  pub jobs_picked : ℕ

-- A call that does not touch the counters.
unfoldable pub on_world : {W E A : Type 0} → Exec W E A → Exec (Machine W) E A
on_world call m = let (r, w') = call m.world in (r, record m { world = w' })

unfoldable pub pick_job : {W : Type 0} → Machine W → Machine W
pick_job m = record m { jobs_picked = (m.jobs_picked + 1) % 256 }

unfoldable pub enter : {W : Type 0} → Machine W → Machine W
enter m = record m { active_tasks = (m.active_tasks + 1) % 2 ^ 64 }

unfoldable pub leave : {W : Type 0} → Machine W → Machine W
leave m = record m { active_tasks = (m.active_tasks + (2 ^ 64 - 1)) % 2 ^ 64 }

-- The delay since `pushed_at` is a metric, and the result of the operation is logged. `pg_connection`
-- panics when no connection can be had, which ends the task of the handler: this is no result here,
-- but a step of Drainer/Shutdown.
unfoldable pub execute_query :
    {W Op DbResult : Type 0}
    → (execute : Op → Exec W DatabaseError DbResult) → Op
    → (pushed_at : ℤ) → Exec W DatabaseError (Unit {0})
execute_query execute op pushed_at = do execute op; pure tt

module _ {W Op DbResult : Type 0} (codec : StreamCodec Op)
    (execute : Op → Exec W DatabaseError DbResult) where
  -- The arms of the match on the result of `execute_query`: to the next entry, or break.
  after_query :
      Result DatabaseError (Unit {0}) × W
      → (last_processed_id entry_id : String) → (next : String → W → String × W) → String × W
  after_query (ok x, w) last_processed_id entry_id next = next entry_id w
  after_query (err DatabaseError.unique_violation, w) last_processed_id entry_id next =
      next entry_id w
  after_query (err error, w) last_processed_id entry_id next = (last_processed_id, w)

  -- The arms of the match on `StreamData::from_hashmap`.
  process_data :
      Result ParsingError (StreamData Op)
      → (last_processed_id entry_id : String) → (next : String → W → String × W) → W
      → String × W
  unfolding after_query execute_query
  process_data (err error) last_processed_id entry_id next w = (last_processed_id, w)
  process_data (ok stream_data) last_processed_id entry_id next w =
      after_query (execute_query execute stream_data.typed_sql stream_data.pushed_at w)
        last_processed_id entry_id next

  -- The loop over the entries: the last processed id.
  unfoldable pub process_entries : Entries String → (last_processed_id : String) → W → String × W
  unfolding process_data from_hashmap
  process_entries [] last_processed_id w = (last_processed_id, w)
  process_entries ((entry_id, entry) ∷ entries) last_processed_id w =
      process_data (from_hashmap codec entry) last_processed_id entry_id
        (λ id w'. process_entries entries id w') w

-- The `if let` on the context of a failed read.
unfoldable pub is_stream_empty : DrainerError → Bool
is_stream_empty (DrainerError.redis_error RedisError.stream_empty_or_not_available) = true
is_stream_empty error = false

unfoldable pub parse_stream_entries :
    List (String × Entries String) → String → Result DrainerError (Entries String)
parse_stream_entries [] stream_name = err (DrainerError.redis_error RedisError.not_found)
parse_stream_entries ((name, entries) ∷ read_result) stream_name =
    if str_eq name stream_name then ok entries else parse_stream_entries read_result stream_name

module _ {W : Type 0} (store : DrainerStore W) where
  -- `if !last_processed_id.is_empty()`; the numbers of entries are only compared for the log.
  unfoldable pub trim_processed :
      String → (last_processed_id : String) → Exec W DrainerError (Unit {0})
  unfolding trim_from_stream
  trim_processed stream_name last_processed_id =
      if str_eq last_processed_id ""
      then pure tt
      else (trim_from_stream store stream_name last_processed_id >> pure tt)

module _ {W Op DbResult : Type 0} (codec : StreamCodec Op)
    (execute : Op → Exec W DatabaseError DbResult) (store : DrainerStore W) where
  -- The part of `drainer` after a successful read.
  unfoldable pub drain_read :
      String → List (String × Entries String) → Exec W DrainerError (Unit {0})
  unfolding parse_stream_entries process_entries trim_processed
  drain_read stream_name stream_read = do
    entries ← lift (parse_stream_entries stream_read stream_name)
    last_processed_id ←
        λ w. let (last, w') = process_entries codec execute entries "" w in (ok last, w')
    trim_processed store stream_name last_processed_id

  unfoldable pub after_read :
      String
      → Result DrainerError (List (String × Entries String)) × Machine W
      → Result DrainerError (Unit {0}) × Machine W
  unfolding drain_read on_world pick_job is_stream_empty
  after_read stream_name (ok result, m) = on_world (drain_read stream_name result) (pick_job m)
  after_read stream_name (err error, m) = (if is_stream_empty error then ok tt else err error, m)

  unfoldable pub drainer :
      (max_read_count : ℕ) → (stream_name : String) → Exec (Machine W) DrainerError (Unit {0})
  unfolding after_read read_from_stream
  drainer max_read_count stream_name m =
      after_read stream_name (on_world (read_from_stream store stream_name max_read_count) m)

  -- The flag of the stream is deleted however the drainer has ended.
  unfoldable pub drainer_handler :
      (stream_index max_read_count : ℕ) → Exec (Machine W) DrainerError (Unit {0})
  unfolding drainer make_stream_available enter leave on_world
  drainer_handler stream_index max_read_count m =
      let stream_name = get_drainer_stream_name store stream_index in
      let m1 = (drainer max_read_count stream_name (enter m)).1 in
      let flag_stream_name = get_stream_key_flag store stream_index in
      let (output, m2) = on_world (make_stream_available store flag_stream_name) m1 in
      (output, leave m2)
