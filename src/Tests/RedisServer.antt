-- ===== src/Tests/RedisServer.antt =====
-- A Redis server in memory with the database beside it, which keeps the laws that the code relies on.
-- Keys do not expire, and an operation of the database is a row with a unique name.
use mercado.Drainer.Handler.Laws.{StreamLaws}
use mercado.Drainer.Streams.{DrainerStore}
use mercado.Errors.{DatabaseError}
use mercado.Prelude.Results.{ok, err}
use mercado.Prelude.Exec.{Exec}
use mercado.Redis.Laws.{KeyLaws, removed, IsSetIfAbsent}
use mercado.Redis.Commands.{RedisConnectionPool}
use mercado.Redis.Fred.{Fred, Entries}
use mercado.Prelude.{
  Option, String, if◌then◌else◌, none, ℕ, ◌≡◌, ◌≢◌, List, [], some, str_eq, str_eq-false,
  str_eq_refl, ◌∷◌, refl, take, ◌++◌, length, ◌-◌, Bool, false, ◌||◌, All, ap, arith, sym, ◌∙◌,
}
use mercado.Prelude.Results.{ok-injective}
use mercado.Redis.Replies.{string, null, integer, RedisErrorKind, FredValue}

pub record Server : Type 0 where
  pub keys : String → Option String
  pub streams : String → Entries String
  pub table : List String

abbrev pub put : {A : Type 0} → String → A → (String → A) → String → A
put key v f k = if str_eq k key then v else f k

pub put-elsewhere :
    {A : Type 0} (key : String) (v : A) (f : String → A) (k : String)
    → k ≢ key
    → put key v f k ≡ f k
put-elsewhere key v f k h = rw (str_eq-false k key h) refl

pub put-here : {A : Type 0} (key : String) (v : A) (f : String → A) → put key v f key ≡ v
put-here key v f = rw (str_eq_refl key) refl

abbrev pub is_member : String → List String → Bool
is_member name [] = false
is_member name (x ∷ xs) = str_eq x name || is_member name xs

-- From the entry with the given id on.
abbrev pub from_id : String → Entries String → Entries String
from_id id [] = []
from_id id ((id', fields) ∷ es) =
    let rest = from_id id es in if str_eq id' id then (id', fields) ∷ es else rest

abbrev pub without_id : String → Entries String → Entries String
without_id id [] = []
without_id id ((id', fields) ∷ es) =
    let rest = without_id id es in if str_eq id' id then es else (id', fields) ∷ rest

abbrev pub set_absent : String → String → Option String → Exec Server RedisErrorKind FredValue
set_absent key v none s = (ok (string "OK"), record s { keys = put key (some v) s.keys })
set_absent key v (some old) s = (ok null, s)

abbrev pub read_entries :
    String → Entries String → Exec Server RedisErrorKind (List (String × Entries String))
read_entries stream [] s = (err RedisErrorKind.not_found, s)
read_entries stream (e ∷ es) s = (ok ((stream, e ∷ es) ∷ []), s)

abbrev pub taken : Option ℕ → Entries String → Entries String
taken none es = es
taken (some n) es = take n es

abbrev pub server_pool : Fred Server
server_pool = record {
  set = λ key v seconds nx s.
      if nx
      then set_absent key v (s.keys key) s
      else (ok (string "OK"), record s { keys = put key (some v) s.keys });
  get = λ key s. (ok (s.keys key), s);
  del = λ key s. (ok (integer (removed (s.keys key))), record s { keys = put key none s.keys });
  expire = λ key seconds s. (ok tt, s);
  xadd = λ stream id fields s. (
    ok tt,
    record s { streams = put stream (s.streams stream ++ ("1-0", fields) ∷ []) s.streams },
  );
  xdel = λ stream ids s. elim ids [
    | [] ↦ (ok 0, s)
    | id ∷ more ↦
        (ok 1, record s { streams = put stream (without_id id (s.streams stream)) s.streams })
  ];
  xtrim = λ stream kind trim id s. (
    ok (length (s.streams stream) - length (from_id id (s.streams stream))),
    record s { streams = put stream (from_id id (s.streams stream)) s.streams },
  );
  xack = λ stream group ids s. (ok (length ids), s);
  xread_map = λ count stream id s. read_entries stream (taken count (s.streams stream)) s;
  xreadgroup_map = λ group consumer count stream id s. (err RedisErrorKind.not_found, s);
  xgroup_create = λ stream group id s. (ok tt, s);
}

abbrev pub server_conn : RedisConnectionPool Server
server_conn = record { pool = server_pool; default_ttl = 300; default_stream_read_count = 1 }

pub set_absent-IsSetIfAbsent :
    (key v : String) (o : Option String) (s : Server)
    → s.keys key ≡ o
    → let (r, s') = set_absent key v o s in IsSetIfAbsent key v s.keys s'.keys r
set_absent-IsSetIfAbsent key v none s e =
    (e, put-here key (some v) s.keys, put-elsewhere key (some v) s.keys)
set_absent-IsSetIfAbsent key v (some old) s e = (λ h. cc, λ k. refl)

unfoldable pub server_keys : KeyLaws server_pool
server_keys = record {
  value = λ s. s.keys;
  set_if_absent = λ key v seconds s. set_absent-IsSetIfAbsent key v (s.keys key) s refl;
  expire_keeps = λ key seconds s k h. refl;
  delete = λ key s. (refl, put-here key none s.keys, put-elsewhere key none s.keys);
}

-- Operations: `insert` names.
abbrev pub insert : String → Exec Server DatabaseError (Unit {0})
insert name s =
    if is_member name s.table
    then (err DatabaseError.unique_violation, s)
    else (ok tt, record s { table = name ∷ s.table })

abbrev pub server_store : DrainerStore Server
server_store = record {
  redis_conn = server_conn;
  config = record { drainer_stream_name = "drainer_stream"; drainer_num_partitions = 4 };
}

pub read_entries-keeps :
    (stream : String) (es : Entries String) (s : Server) → (read_entries stream es s).1 ≡ s
read_entries-keeps stream [] s = refl
read_entries-keeps stream (e ∷ es) s = refl

pub read_entries-only :
    (stream : String) (es : Entries String) (s : Server) (read : List (String × Entries String))
    → (read_entries stream es s).0 ≡ ok read
    → read ≡ (stream, es) ∷ []
read_entries-only stream [] s read h = cc
read_entries-only stream (e ∷ es) s read h = sym (ok-injective h)

pub from_id-first :
    (id : String) (fields : List (String × String)) (front rest : Entries String)
    → All (λ e. e.0 ≢ id) front
    → from_id id (front ++ (id, fields) ∷ rest) ≡ (id, fields) ∷ rest
from_id-first id fields [] rest h = rw (str_eq_refl id) refl
from_id-first id fields ((id', fields') ∷ front) rest (differs, h) =
    rw (str_eq-false id' id differs) (from_id-first id fields front rest h)

pub without_id-first :
    (id : String) (fields : List (String × String)) (front rest : Entries String)
    → All (λ e. e.0 ≢ id) front
    → without_id id (front ++ (id, fields) ∷ rest) ≡ front ++ rest
without_id-first id fields [] rest h = rw (str_eq_refl id) refl
without_id-first id fields ((id', fields') ∷ front) rest (differs, h) =
    rw (str_eq-false id' id differs)
      (ap (λ es. (id', fields') ∷ es) (without_id-first id fields front rest h))

pub insert-streams :
    (name : String) (s : Server) (stream : String)
    → (insert name s).1.streams stream ≡ s.streams stream
insert-streams name s stream = ground arith

unfoldable pub keep_streams :
    {Op DbResult : Type 0} (execute : Op → Exec Server DatabaseError DbResult)
    → ((op : Op) (s : Server) (stream : String)
        → (execute op s).1.streams stream ≡ s.streams stream)
    → StreamLaws execute server_store
keep_streams execute keeps = record {
  entries = λ s. s.streams;
  read_keeps = λ count stream id s s'.
      ap (λ x. x.streams s') (read_entries-keeps stream (taken count (s.streams stream)) s);
  read_first = λ count stream s h e. read_entries-only stream (take count (s.streams stream)) s _ e;
  trim_before = λ stream id s front rest fields differ split.
      put-here stream (from_id id (s.streams stream)) s.streams
      ∙ ap (from_id id) split
      ∙ from_id-first id fields front rest differ;
  delete_entry = λ stream id s front rest fields differ split.
      put-here stream (without_id id (s.streams stream)) s.streams
      ∙ ap (without_id id) split
      ∙ without_id-first id fields front rest differ;
  execute_keeps = λ op s stream. keeps op s stream;
}

unfoldable pub server_streams : StreamLaws insert server_store
unfolding keep_streams
server_streams = keep_streams insert insert-streams
