-- ===== src/Api/NotFound.antt =====
-- What becomes of a missing key on its way to a response.
use mercado.Db.Connections.{with_connection}
use mercado.Prelude.Exec.{map_error}
use mercado.Errors.{StorageError}
use mercado.Db.Table.{DieselError}
use mercado.Prelude.Results.{Result, err, ok}
use mercado.ApiKeys.Rows.{ApiKey}
use mercado.Api.Errors.{ApiErrorResponse}
use mercado.Api.StorageErrors.{api_not_found}
use mercado.Db.Generics.{find_error, generic_find_by_id}
use mercado.Prelude.{◌≡◌, String, List, none, ap, refl, ◌∙◌}
use mercado.Db.Contents.{Contents, row_with, IsFound}
use mercado.ApiKeys.Service.{KeyStore, retrieve_api_key, pg_connection_write}

module _ {W Time Json : Type 0} (store : KeyStore W Time) (contents : Contents store.table)
    (connect_keeps : (w : W) → contents.rows (store.master_pool_get w).1 ≡ contents.rows w) where
  missing_id :
      (id : String) (before : List (ApiKey Time)) (p : Result DieselError (ApiKey Time) × W)
      → row_with contents.id_of id before ≡ none
      → IsFound contents.id_of id before (contents.rows p.1) p.0
      → (e : StorageError) × ((map_error StorageError.database_error
            (map_error find_error (λ _. p))
            p.1).0
          ≡ err e)
        × ((response : ApiErrorResponse Json)
            → api_not_found response e ≡ ApiErrorResponse.internal_server_error)
  unfolding find_error api_not_found
  missing_id id before (ok r, w) missing (is_there, kept) = absurd (cc (missing, is_there))
  missing_id id before (err DieselError.not_found, w) missing h = (_, refl, λ response. refl)
  missing_id id before (err DieselError.unique_violation, w) missing h = (_, refl, λ response. refl)
  missing_id id before (err DieselError.query_builder_error, w) missing h =
      (_, refl, λ response. refl)
  missing_id id before (err DieselError.other, w) missing h = (_, refl, λ response. refl)

  -- If the statements have their documented effect and taking a connection keeps the rows: retrieve_api_key of an id that no key has ends in an error, and to_not_found_response makes of it InternalServerError, whatever response is asked for.
  pub retrieve_api_key-missing :
      (id : String) (response : ApiErrorResponse Json) (w : W)
      → row_with contents.id_of id (contents.rows w) ≡ none
      → (e : StorageError) × ((retrieve_api_key store id w).0 ≡ err e)
        × (api_not_found response e ≡ ApiErrorResponse.internal_server_error)
  unfolding retrieve_api_key pg_connection_write generic_find_by_id api_not_found
  retrieve_api_key-missing id response w missing =
      let w1 = (store.master_pool_get w).1 in
      with_connection
        (λ p.
          (e : StorageError) × (p.0 ≡ err e)
          × (api_not_found response e ≡ ApiErrorResponse.internal_server_error))
        store.master_pool_get
        (map_error StorageError.database_error (generic_find_by_id store.table id)) w
        (_, refl, refl)
        (let (e, ended, internal) =
            missing_id id (contents.rows w1) (store.table.find id w1)
              (ap (row_with contents.id_of id) (connect_keeps w) ∙ missing)
              (contents.find_lem id w1) in
          (e, ended, internal response))
