-- ===== src/Drainer/Handler/Loop.antt =====
-- What the loop over the entries does: it handles a prefix of them.
use mercado.Drainer.Handler.{process_entries, [], execute_query, List, ok, err}
use mercado.Redis.Fred.{Entries}
use mercado.Prelude.Results.{Result, ok, err, Result-cases}
use mercado.Prelude.{String, [], ◌∷◌, ◌≡◌, List, ◌++◌, ◌⊎◌, ◌≢◌, refl, arith, inl, ap, inr}
use mercado.Errors.{DatabaseError}
use mercado.Prelude.Exec.{Exec}
use mercado.Drainer.Entries.{StreamCodec, StreamData, ParsingError, from_hashmap}

abbrev pub last_id : String → Entries String → String
last_id d [] = d
last_id d ((id, fields) ∷ es) = last_id id es

module _ {W Op DbResult : Type 0} (codec : StreamCodec Op)
    (execute : Op → Exec W DatabaseError DbResult) where
  -- Whether the entry counts as processed: the operation was executed, or violates a unique constraint.
  abbrev pub IsHandled : Result DatabaseError (Unit {0}) → Type 0
  IsHandled r = (r ≡ ok tt) ⊎ (r ≡ err DatabaseError.unique_violation)

  abbrev pub run : StreamData Op → Exec W DatabaseError (Unit {0})
  run stream_data = execute_query execute stream_data.typed_sql stream_data.pushed_at

  -- The entries are processed one after the other, and all are handled.
  pub data Handles : W → Entries String → W → Type 0 where
    none_left : {w : W} → Handles w [] w
    handled :
        {w w' : W} {id : String} {fields : List (String × String)} {es : Entries String}
        (stream_data : StreamData Op)
        → from_hashmap codec fields ≡ ok stream_data
        → IsHandled (run stream_data w).0
        → Handles (run stream_data w).1 es w'
        → Handles w ((id, fields) ∷ es) w'

  -- Why the loop ends: no entry is left, or the next one cannot be read, or cannot be executed.
  pub data Stops : W → Entries String → W → Type 0 where
    at_end : {w : W} → Stops w [] w
    unreadable :
        {w : W} {id : String} {fields : List (String × String)} {es : Entries String}
        (e : ParsingError)
        → from_hashmap codec fields ≡ err e
        → Stops w ((id, fields) ∷ es) w
    refused :
        {w : W} {id : String} {fields : List (String × String)} {es : Entries String}
        (stream_data : StreamData Op) (e : DatabaseError)
        → from_hashmap codec fields ≡ ok stream_data
        → (run stream_data w).0 ≡ err e
        → e ≢ DatabaseError.unique_violation
        → Stops w ((id, fields) ∷ es) (run stream_data w).1

  IsHandled-or_refused :
      (r : Result DatabaseError (Unit {0}))
      → IsHandled r ⊎ ((e : DatabaseError) × (r ≡ err e) × (e ≢ DatabaseError.unique_violation))
  IsHandled-or_refused (ok tt) = inl (inl refl)
  IsHandled-or_refused (err DatabaseError.unique_violation) = inl (inr refl)
  IsHandled-or_refused (err DatabaseError.database_connection_error) = inr (_, refl, λ h. cc)
  IsHandled-or_refused (err DatabaseError.not_found) = inr (_, refl, λ h. cc)
  IsHandled-or_refused (err DatabaseError.no_fields_to_update) = inr (_, refl, λ h. cc)
  IsHandled-or_refused (err DatabaseError.query_generation_failed) = inr (_, refl, λ h. cc)
  IsHandled-or_refused (err DatabaseError.others) = inr (_, refl, λ h. cc)

  module _ (id last : String) (fields : List (String × String)) (es : Entries String) (w : W) where
    process_entries-handled :
        (stream_data : StreamData Op)
        → from_hashmap codec fields ≡ ok stream_data
        → IsHandled (run stream_data w).0
        → process_entries codec execute ((id, fields) ∷ es) last w
          ≡ process_entries codec execute es id (run stream_data w).1
    unfolding process_entries
    process_entries-handled stream_data e h = ground arith

    process_entries-unreadable :
        (x : ParsingError)
        → from_hashmap codec fields ≡ err x
        → process_entries codec execute ((id, fields) ∷ es) last w ≡ (last, w)
    unfolding process_entries
    process_entries-unreadable x e = ground arith

    process_entries-refused :
        (stream_data : StreamData Op) (x : DatabaseError)
        → from_hashmap codec fields ≡ ok stream_data
        → (run stream_data w).0 ≡ err x
        → x ≢ DatabaseError.unique_violation
        → process_entries codec execute ((id, fields) ∷ es) last w ≡ (last, (run stream_data w).1)
    unfolding process_entries
    process_entries-refused stream_data x e e2 h = ground arith

  -- The entries are a handled prefix and a rest at which the loop stops, and the last id is the prefix's.
  abbrev pub IsPrefixRun : Entries String → String → W → String × W → Type 0
  IsPrefixRun es last w (last', w') =
      (front : Entries String) × (rest : Entries String) × (w1 : W) × (es ≡ front ++ rest)
      × Handles w front w1
      × (last' ≡ last_id last front)
      × Stops w1 rest w'

  pub process_entries-prefix :
      (es : Entries String) (last : String) (w : W)
      → IsPrefixRun es last w (process_entries codec execute es last w)
  unfolding process_entries
  process_entries-prefix [] last w = ([], [], w, refl, none_left, refl, at_end)
  process_entries-prefix ((id, fields) ∷ es) last w =
      elim (Result-cases (from_hashmap codec fields)) [
        | inl (sd, e) ↦ elim (IsHandled-or_refused (run sd w).0) [
          | inl h ↦
              let (front, rest, w1, split, handles, last_is, stops) =
                process_entries-prefix es id (run sd w).1 in
              rw (process_entries-handled id last fields es w sd e h) (
                (id, fields) ∷ front,
                rest,
                w1,
                ap (λ x. (id, fields) ∷ x) split,
                handled sd e h handles,
                last_is,
                stops,
              )
          | inr (x, e2, h) ↦
              rw (process_entries-refused id last fields es w sd x e e2 h)
                ([], (id, fields) ∷ es, w, refl, none_left, refl, refused sd x e e2 h)
        ]
        | inr (x, e) ↦
            rw (process_entries-unreadable id last fields es w x e)
              ([], (id, fields) ∷ es, w, refl, none_left, refl, unreadable x e)
      ]
