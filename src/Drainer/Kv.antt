-- ===== src/Drainer/Kv.antt =====
-- `DBOperation` of crates/diesel_models/src/kv.rs, whose `Insertable` and `Updateable` have no variant
-- (they are commented out there), and what the drainer is for it.
use mercado.Prelude.Results.{Result-cases}
use mercado.Drainer.Handler.{Machine, drainer}
use mercado.Drainer.Handler.Laws.{StreamLaws, HasDistinctIds}
use mercado.Drainer.Streams.{DrainerStore, read_from_stream}
use mercado.Redis.Fred.{Entries}
use mercado.Errors.{DatabaseError}
use mercado.Prelude.Exec.{Exec}
use mercado.Drainer.Entries.{StreamCodec}
use mercado.Prelude.{
  String, ℕ, ◌≡◌, [], ◌∷◌, ◌≤◌, refl, inl, inr, ap, ◌∙◌, ◌++◌, drop, sym, take-append-drop,
}
use mercado.Drainer.Handler.Loop.{none_left, handled, Handles}
use mercado.Drainer.Handler.Drains.{drainer-IsDrained, first_entries}
use mathlib.Core.List.{append-eq-nil_iff}

pub data Insertable : Type 0 where

pub data Updateable : Type 0 where

pub data DbOperation : Type 0 where
  insert : (insertable : Insertable) → DbOperation
  update : (updatable : Updateable) → DbOperation

unfoldable pub operation : DbOperation → String
operation (insert insertable) = "insert"
operation (update updatable) = "update"

unfoldable pub table : DbOperation → String
table (insert insertable) = "default"
table (update updatable) = "default"

no_operation : DbOperation → ⊥
no_operation (insert i) = elim i [ ]
no_operation (update u) = elim u [ ]

module _ {W DbResult : Type 0} (codec : StreamCodec DbOperation)
    (execute : DbOperation → Exec W DatabaseError DbResult) where
  Handles-nil : {w w' : W} (es : Entries String) → Handles codec execute w es w' → es ≡ []
  Handles-nil [] none_left = refl
  Handles-nil (e ∷ es) (handled sd p h rest) = absurd (no_operation sd.typed_sql)

  -- For a read count of at least 1, and a stream with distinct ids that are not empty: with the
  -- operations of kv.rs, of which there is none, the drainer leaves the stream as it is, whatever it
  -- holds.
  pub drainer-removes_nothing :
      (store : DrainerStore W) (laws : StreamLaws execute store) (stream : String) (n : ℕ)
      (m : Machine W)
      → 1 ≤ n
      → HasDistinctIds (laws.entries m.world stream)
      → laws.entries (drainer codec execute store n stream m).1.world stream
        ≡ laws.entries m.world stream
  drainer-removes_nothing store laws stream n m h ids =
      let (same, drained, failed) = drainer-IsDrained codec execute store laws stream n m h ids in
      elim (Result-cases (read_from_stream store stream n m.world).0) [
        | inl (read, e) ↦
            let (gone, kept, rest, w1, w2, split, handles, stops, left, all) = drained read e in
            let nothing = Handles-nil (gone ++ kept) handles in
            let none_kept = (append-eq-nil_iff.0 nothing).1 in
            let w : W = (read_from_stream store stream n m.world).1 in
            let is_rest : first_entries codec execute store laws stream n w ≡ rest =
              split ∙ ap (λ x. x ++ rest) nothing in
            left
            ∙ ap (λ x. x ++ (rest ++ drop n (laws.entries w stream))) none_kept
            ∙ ap (λ x. x ++ drop n (laws.entries w stream)) (sym is_rest)
            ∙ take-append-drop n (laws.entries w stream)
            ∙ same
        | inr (x, e) ↦ ap (λ w. laws.entries w stream) (failed x e) ∙ same
      ]
