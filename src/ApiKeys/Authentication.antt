-- ===== src/ApiKeys/Authentication.antt =====
-- An API key is found by the hash of its text.
use mathlib.Core.Path.{subst}
use mercado.Db.Connections.{with_connection}
use mercado.Db.Generics.{find_error, to_optional, generic_find_one_optional, generic_find_one}
use mercado.Prelude.Exec.{map_error, on_result, lift}
use mercado.Db.Table.{DieselError}
use mercado.Errors.{StorageError}
use mercado.Prelude.Results.{Result, ok, map_err, err}
use mercado.ApiKeys.Rows.{ApiKey, hashed_from}
use mercado.Prelude.{String, List, str_eq, ◌≡◌, All, eq_iff, false, Bool}
use mercado.Db.Contents.{Contents, IsSelected}
use mercado.ApiKeys.Service.{
  KeyTable, or_not_found, KeyStore, authenticate_api_key, pg_connection_write,
  find_optional_by_hashed_api_key, has_token,
}
use mathlib.Core.List.{Mem}
use mercado.Errors.{DatabaseError}
use mercado.Prelude.Exec.{◌>>=◌, lift, map_error, on_result}

module _ {W Time : Type 0} (table : KeyTable W Time) (contents : Contents table)
    (token : String) where
  -- What an authentication promises: a key with the token, and NotFound only if no key has it.
  abbrev pub IsAuthenticated :
      (before after : List (ApiKey Time)) → Result StorageError (ApiKey Time) → Type 0
  IsAuthenticated before after (ok key) =
      (key.token.into_inner ≡ token) × Mem key before × (after ≡ before)
  IsAuthenticated before after (err (StorageError.database_error DatabaseError.not_found)) =
      All (λ key. str_eq key.token.into_inner token ≡ false) before × (after ≡ before)
  IsAuthenticated before after (err e) = after ≡ before

  get_result-IsAuthenticated :
      (before : List (ApiKey Time)) (p : Result DieselError (ApiKey Time) × W)
      → IsSelected (λ key. str_eq key.token.into_inner token) before (contents.rows p.1) p.0
      → let found =
          map_error StorageError.database_error
            (on_result (map_error find_error (λ _. p)) (λ r. lift (to_optional table r))) in
        let (r, w) =
          (found >>= λ key. lift (map_err StorageError.database_error (or_not_found key))) p.1 in
        IsAuthenticated before (contents.rows w) r
  unfolding find_error to_optional or_not_found
  get_result-IsAuthenticated before (ok key, w) (same, is_stored, kept) =
      ((eq_iff key.token.into_inner token).0 same, is_stored, kept)
  get_result-IsAuthenticated before (err DieselError.not_found, w) h = h
  get_result-IsAuthenticated before (err DieselError.unique_violation, w) h = h
  get_result-IsAuthenticated before (err DieselError.query_builder_error, w) h = h
  get_result-IsAuthenticated before (err DieselError.other, w) h = h

module _ {W Time : Type 0} (store : KeyStore W Time) (contents : Contents store.table)
    (connect_keeps : (w : W) → contents.rows (store.master_pool_get w).1 ≡ contents.rows w) where
  -- If the statements have their documented effect and taking a connection keeps the rows:
  -- authenticate_api_key answers a stored key whose token is the given one, it ends in NotFound only
  -- if no stored key has that token, and whatever it answers the rows are as before.
  pub authenticate_api_key-IsAuthenticated :
      (token : String) (w : W)
      → let (r, w') = authenticate_api_key store token w in
        IsAuthenticated store.table contents token (contents.rows w) (contents.rows w') r
  unfolding authenticate_api_key pg_connection_write find_optional_by_hashed_api_key has_token
      generic_find_one_optional generic_find_one
  authenticate_api_key-IsAuthenticated token w =
      let w1 = (store.master_pool_get w).1 in
      let test : ApiKey Time → Bool = λ key. str_eq key.token.into_inner token in
      with_connection
        (λ p. IsAuthenticated store.table contents token (contents.rows w) (contents.rows p.1) p.0)
        store.master_pool_get
        (map_error StorageError.database_error
            (find_optional_by_hashed_api_key store.table (hashed_from token))
          >>= λ found. lift (map_err StorageError.database_error (or_not_found found)))
        w (connect_keeps w)
        (get_result-IsAuthenticated store.table contents token (contents.rows w)
          (store.table.get_result test w1)
          (subst
            (λ before.
              IsSelected test before (contents.rows (store.table.get_result test w1).1)
                (store.table.get_result test w1).0)
            (connect_keeps w) (contents.get_result_lem test w1)))
