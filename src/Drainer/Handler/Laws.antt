-- ===== src/Drainer/Handler/Laws.antt =====
-- What the drainer relies on: the documented effect of Redis' commands on a stream, and that database
-- operations do not touch the streams. A stream keeps its entries in the order of their ids; a command
-- that ends in an error has changed nothing.
use mercado.Redis.Replies.{StreamCapKind, StreamCapTrim}
use mercado.Prelude.Results.{ok, written}
use mercado.Redis.Fred.{Entries}
use mercado.Prelude.{String, Option, ℕ, ◌≡◌, List, ◌≤◌, some, take, ◌∷◌, [], ◌++◌, All, ◌≢◌}
use mercado.Drainer.Streams.{DrainerStore}
use mercado.Errors.{DatabaseError}
use mercado.Prelude.Exec.{Exec}

-- The ids of a stream are texts that are not empty, and all different.
abbrev pub HasDistinctIds : Entries String → Type 0
HasDistinctIds [] = Unit
HasDistinctIds ((id, fields) ∷ es) = (id ≢ "") × All (λ e. e.0 ≢ id) es × HasDistinctIds es

pub record StreamLaws {W Op DbResult : Type 0} (execute : Op → Exec W DatabaseError DbResult)
    (store : DrainerStore W) : Type 0 where
  pub entries : W → String → Entries String
  pub read_keeps :
      (count : Option ℕ) (stream id : String) (w : W) (s : String)
      → entries (store.redis_conn.pool.xread_map count stream id w).1 s ≡ entries w s
  -- XREAD from the id "0-0" gives the first entries of the stream.
  pub read_first :
      (count : ℕ) (stream : String) (w : W) {read : List (String × Entries String)}
      → 1 ≤ count
      → (store.redis_conn.pool.xread_map (some count) stream "0-0" w).0 ≡ ok read
      → read ≡ (stream, take count (entries w stream)) ∷ []
  -- XTRIM MINID removes the entries before the one with the given id.
  pub trim_before :
      (stream id : String) (w : W) (front rest : Entries String) (fields : List (String × String))
      → All (λ e. e.0 ≢ id) front
      → entries w stream ≡ front ++ (id, fields) ∷ rest
      → let (r, w') =
          store.redis_conn.pool.xtrim stream StreamCapKind.min_id StreamCapTrim.exact id w in
        entries w' stream ≡ written r ((id, fields) ∷ rest) (entries w stream)
  -- XDEL removes the entry with the given id.
  pub delete_entry :
      (stream id : String) (w : W) (front rest : Entries String) (fields : List (String × String))
      → All (λ e. e.0 ≢ id) front
      → entries w stream ≡ front ++ (id, fields) ∷ rest
      → let (r, w') = store.redis_conn.pool.xdel stream (id ∷ []) w in
        entries w' stream ≡ written r (front ++ rest) (entries w stream)
  pub execute_keeps : (op : Op) (w : W) (s : String) → entries (execute op w).1 s ≡ entries w s
