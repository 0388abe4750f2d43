-- ===== src/ApiKeys/Insert.antt =====
-- What the insertion of an API key does to the keys that are stored.
use mercado.Prelude.Exec.{map_error}
use mercado.Db.Table.{DieselError}
use mercado.Errors.{StorageError}
use mercado.Db.Connections.{with_connection}
use mercado.Prelude.Results.{Result, ok, err}
use mercado.Db.Generics.{insert_error, generic_insert}
use mercado.ApiKeys.Rows.{ApiKeyNew, ApiKey}
use mercado.Prelude.{◌≡◌, List, ◌++◌, ◌∷◌, []}
use mercado.Db.Contents.{Contents, IsInserted}
use mercado.ApiKeys.Service.{KeyStore, insert_api_key, pg_connection_write}
use mathlib.Core.Path.{subst}

module _ {W Time : Type 0} (store : KeyStore W Time) (contents : Contents store.table)
    (connect_keeps : (w : W) → contents.rows (store.master_pool_get w).1 ≡ contents.rows w) where
  -- What an insertion promises: the key is added.
  abbrev pub IsAdded :
      ApiKeyNew Time
      → (before after : List (ApiKey Time)) → Result StorageError (ApiKey Time)
      → Type 0
  IsAdded values before after (ok key) =
      (key ≡ contents.new_row (contents.id_of key) values) × (after ≡ before ++ key ∷ [])
  IsAdded values before after (err e) = after ≡ before

  generic_insert-IsAdded :
      (values : ApiKeyNew Time) (before : List (ApiKey Time))
      (p : Result DieselError (ApiKey Time) × W)
      → IsInserted contents.id_of
          (λ row. row ≡ contents.new_row (contents.id_of row) values)
          before
          (contents.rows p.1)
          p.0
      → let (r, w) = map_error StorageError.database_error (map_error insert_error (λ _. p)) p.1 in
        IsAdded values before (contents.rows w) r
  unfolding insert_error
  generic_insert-IsAdded values before (ok r, w) h = h
  generic_insert-IsAdded values before (err e, w) h = h

  pub insert_api_key-IsAdded :
      (values : ApiKeyNew Time) (w : W)
      → let (r, w') = insert_api_key store values w in
        IsAdded values (contents.rows w) (contents.rows w') r
  unfolding insert_api_key pg_connection_write generic_insert
  insert_api_key-IsAdded values w =
      let w1 = (store.master_pool_get w).1 in
      with_connection (λ p. IsAdded values (contents.rows w) (contents.rows p.1) p.0)
        store.master_pool_get
        (map_error StorageError.database_error (generic_insert store.table values)) w
        (connect_keeps w)
        (generic_insert-IsAdded values (contents.rows w) (store.table.insert_into values w1) (
          subst
            (λ before.
              IsInserted contents.id_of (λ row. row ≡ contents.new_row (contents.id_of row) values)
                before (contents.rows (store.table.insert_into values w1).1)
                (store.table.insert_into values w1).0)
            (connect_keeps w) (contents.insert_lem values w1)))
