-- ===== src/Drainer/Entries.antt =====
-- The entries of a drainer stream: `StreamData` of crates/drainer/src/types.rs with the deserialisers of
-- crates/drainer/src/utils.rs, and `TypedSql` of crates/diesel_models/src/kv.rs. JSON and the numbers'
-- text are serde_json's and std's: the record `StreamCodec` stands for them. The operation is a type
-- `Op`: that of kv.rs is `DbOperation` of Drainer/Kv, which has no value, since `Insertable` and
-- `Updateable` have no variant left, and what is shown of any `Op` holds of it too.
use mercado.Errors.{DatabaseError}
use mercado.Prelude.Results.{Result, ok_or, ◌>>=◌, ok}
use mercado.Prelude.Int.{ℤ}
use mercado.Prelude.{List, Option, String, none, [], some, ◌∷◌, if◌then◌else◌, str_eq}

-- `common_utils::errors::ParsingError`, as far as it is used here.
pub data ParsingError : Type 0 where
  struct_parse_failure : String → ParsingError

-- `serde_json::Value`; a number has its `as_i64`.
pub data JsonValue : Type 0 where
  string : String → JsonValue
  number : Option ℤ → JsonValue
  other : JsonValue

pub record StreamCodec (Op : Type 0) : Type 0 where
  -- `serde_json::from_str` at `kv::DBOperation`, and `to_string` at `TypedSql`
  pub from_str : String → Option Op
  pub to_string : Op → Option String
  -- `i64`
  pub parse : String → Option ℤ
  pub to_text : ℤ → String

pub record StreamData (Op : Type 0) : Type 0 where
  pub request_id : String
  pub global_id : String
  pub typed_sql : Op
  pub pushed_at : ℤ

pub record TypedSql (Op : Type 0) : Type 0 where
  pub op : Op

-- `HashMap<String, String>`
unfoldable pub lookup : String → List (String × String) → Option String
lookup key [] = none
lookup key ((k, v) ∷ entry) = if str_eq k key then some v else lookup key entry

module _ {Op : Type 0} (codec : StreamCodec Op) where
  unfoldable pub deserialize_i64 : JsonValue → Option ℤ
  deserialize_i64 (JsonValue.string str_val) = codec.parse str_val
  deserialize_i64 (JsonValue.number num_val) = num_val
  deserialize_i64 JsonValue.other = none

  unfoldable pub deserialize_db_op : JsonValue → Option Op
  deserialize_db_op (JsonValue.string str_val) = codec.from_str str_val
  deserialize_db_op _ = none

  -- The derived `Deserialize` over a map of strings, where every value is a string, with the error
  -- that `change_context` gives it.
  or_parse_failure : {A : Type 0} → Option A → Result ParsingError A
  or_parse_failure value = ok_or value (struct_parse_failure "StreamData")

  unfoldable pub from_hashmap : List (String × String) → Result ParsingError (StreamData Op)
  unfolding lookup deserialize_i64 deserialize_db_op or_parse_failure
  from_hashmap hashmap = do
    request_id ← or_parse_failure (lookup "request_id" hashmap)
    global_id ← or_parse_failure (lookup "global_id" hashmap)
    typed_sql_text ← or_parse_failure (lookup "typed_sql" hashmap)
    typed_sql ← or_parse_failure (deserialize_db_op (JsonValue.string typed_sql_text))
    pushed_at_text ← or_parse_failure (lookup "pushed_at" hashmap)
    pushed_at ← or_parse_failure (deserialize_i64 (JsonValue.string pushed_at_text))
    ok (record {
      request_id = request_id;
      global_id = global_id;
      typed_sql = typed_sql;
      pushed_at = pushed_at;
    })

  -- What the router pushes; `now` is the clock.
  unfoldable pub to_field_value_pairs :
      (now : ℤ)
      → TypedSql Op
      → (request_id global_id : String) → Result DatabaseError (List (String × String))
  to_field_value_pairs now typed_sql request_id global_id = do
    text ← ok_or (codec.to_string typed_sql.op) DatabaseError.query_generation_failed
    ok (
        ("typed_sql", text)
        ∷ ("global_id", global_id)
        ∷ ("request_id", request_id)
        ∷ ("pushed_at", codec.to_text now)
        ∷ [])
