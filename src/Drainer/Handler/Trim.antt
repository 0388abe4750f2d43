-- ===== src/Drainer/Handler/Trim.antt =====
-- What removing the processed entries does to the stream.
use mercado.Redis.Commands.{stream_trim_entries, stream_delete_entries}
use mercado.Redis.Replies.{StreamCapKind, StreamCapTrim}
use mathlib.Core.Path.{subst}
use mercado.Drainer.Handler.Loop.{last_id}
use mercado.Drainer.Handler.{trim_processed, DrainerError, ok, trim_from_stream}
use mercado.Prelude.Results.{Result, ok, Result-cases}
use mercado.Drainer.Handler.Laws.{StreamLaws, HasDistinctIds}
use mercado.Drainer.Streams.{DrainerStore, trim_from_stream}
use mercado.Errors.{DatabaseError, DrainerError}
use mercado.Prelude.Exec.{Exec}
use mercado.Redis.Fred.{Entries}
use mercado.Prelude.{
  ◌≢◌, ◌≡◌, [], ◌⊎◌, List, inl, ◌++◌, inr, ◌∷◌, All, refl, ◌∙◌, ap, sym, arith, str_eq-false,
}
use mathlib.Core.List.{append_assoc, append-nil}
use Prim.Native.String.{String}

All-last {ℓ κ} : {A : Type ℓ} (P : A → Type κ) (xs ys : List A) (a : A) → All P (xs ++ a ∷ ys) → P a
All-last P [] ys a h = h.0
All-last P (x ∷ xs) ys a h = All-last P xs ys a h.1

HasDistinctIds-split :
    (init rest : Entries String) (id : String) (fields : List (String × String))
    → HasDistinctIds (init ++ (id, fields) ∷ rest)
    → (id ≢ "") × All (λ e. e.0 ≢ id) init
HasDistinctIds-split [] rest id fields h = (h.0, tt)
HasDistinctIds-split ((id', fields') ∷ init) rest id fields (given, differ, others) =
    let (id_given, init_differ) = HasDistinctIds-split init rest id fields others in
    let differs : id ≢ id' = All-last (λ e. e.0 ≢ id') init rest (id, fields) differ in
    (id_given, (λ e. differs (sym e), init_differ))

-- A list of entries is empty, or ends with an entry, whose id is the last id.
last_id-cases :
    (front : Entries String)
    → (front ≡ [])
      ⊎ ((init : Entries String) × (id : String) × (fields : List (String × String)) × (front
            ≡ init ++ (id, fields) ∷ [])
          × ((d : String) → last_id d front ≡ id))
last_id-cases [] = inl refl
last_id-cases ((id, fields) ∷ es) = elim (last_id-cases es) [
  | inl e ↦ inr ([], id, fields, rw e refl, λ d. rw e refl)
  | inr (init, id', fields', e, h) ↦ inr ((id, fields) ∷ init, id', fields', rw e refl, λ d. h id)
]

module _ {W Op DbResult : Type 0} (execute : Op → Exec W DatabaseError DbResult)
    (store : DrainerStore W) (laws : StreamLaws execute store) where
  -- What is left of the processed entries: none after a success.
  abbrev pub IsTrimmed :
      Entries String → Entries String → Result DrainerError (Unit {0}) → Entries String → Type 0
  IsTrimmed front rest r left =
      (gone : Entries String) × (kept : Entries String) × (front ≡ gone ++ kept)
      × (left ≡ kept ++ rest)
      × (r ≡ ok tt → kept ≡ [])

  trim_processed-last :
      (stream id : String) (fields : List (String × String)) (init rest : Entries String) (w : W)
      → HasDistinctIds (laws.entries w stream)
      → laws.entries w stream ≡ init ++ (id, fields) ∷ rest
      → let (r, w') = trim_processed store stream id w in
        IsTrimmed (init ++ (id, fields) ∷ []) rest r (laws.entries w' stream)
  unfolding trim_processed trim_from_stream stream_trim_entries stream_delete_entries
  trim_processed-last stream id fields init rest w ids split =
      let (given, differ) =
        HasDistinctIds-split init rest id fields (subst HasDistinctIds split ids) in
      let w1 =
        (store.redis_conn.pool.xtrim stream StreamCapKind.min_id StreamCapTrim.exact id w).1 in
      rw (str_eq-false id "" given)
        (elim (Result-cases
          (store.redis_conn.pool.xtrim stream StreamCapKind.min_id StreamCapTrim.exact id w).0) [
            | inl (n, e) ↦ elim (Result-cases (store.redis_conn.pool.xdel stream (id ∷ []) w1).0) [
              | inl (k, e2) ↦ (
                init ++ (id, fields) ∷ [],
                [],
                sym (append-nil (init ++ (id, fields) ∷ [])),
                ground (
                  arith,
                  laws.trim_before stream id w init rest fields differ split,
                  laws.delete_entry stream id w1 [] rest fields tt,
                ),
                λ h. refl,
              )
              | inr (x, e2) ↦ (
                init,
                (id, fields) ∷ [],
                refl,
                ground (
                  arith,
                  laws.trim_before stream id w init rest fields differ split,
                  laws.delete_entry stream id w1 [] rest fields tt,
                ),
                λ h. ground arith,
              )
            ]
            | inr (x, e) ↦ (
              [],
              init ++ (id, fields) ∷ [],
              refl,
              ground (
                arith,
                laws.trim_before stream id w init rest fields differ split,
                append_assoc init ((id, fields) ∷ []) rest,
              ),
              λ h. ground arith,
            )
          ])

  pub trim_processed-IsTrimmed :
      (stream : String) (front rest : Entries String) (w : W)
      → HasDistinctIds (laws.entries w stream)
      → laws.entries w stream ≡ front ++ rest
      → let (r, w') = trim_processed store stream (last_id "" front) w in
        IsTrimmed front rest r (laws.entries w' stream)
  unfolding trim_processed
  trim_processed-IsTrimmed stream front rest w ids split = elim (last_id-cases front) [
    | inl e ↦ rw e ([], [], refl, split ∙ ap (λ x. x ++ rest) e, λ h. refl)
    | inr (init, id, fields, e, last_is) ↦ rw (last_is "") (
        rw e (
          trim_processed-last stream id fields init rest w ids
            (split ∙ ap (λ x. x ++ rest) e ∙ append_assoc init ((id, fields) ∷ []) rest)))
  ]
