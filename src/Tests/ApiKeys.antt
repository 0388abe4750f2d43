-- ===== src/Tests/ApiKeys.antt =====
-- API keys that are created, updated and looked up.

use mercado.ApiKeys.Upsert.{IsUpserted, upsert_api_key-IsUpserted}
use mercado.Api.StorageErrors.{api_not_found}
use mercado.ApiKeys.Rows.{ApiKeyType, ApiKeyUpdate}
use mercado.Db.Table.{DieselError}
use mercado.Api.NotFound.{retrieve_api_key-missing}
use mercado.ApiKeys.Plaintext.{Env}
use mercado.ApiKeys.Authentication.{IsAuthenticated, authenticate_api_key-IsAuthenticated}
use mercado.ApiKeys.Plaintext.{Env}
use mercado.Api.Errors.{ApiErrorResponse}
use mercado.Errors.{StorageError}
use mercado.ApiKeys.Service.{upsert_api_key, retrieve_api_key, authenticate_api_key}
use mercado.Prelude.Results.{err}
use mercado.Tests.Keys.{keys_contents, Keys, keys_store, one_key, keys_table}
use mercado.ApiKeys.Create.{AppState, CreateApiKeyRequest}
use mercado.Prelude.{List, ℕ, String, ◌∷◌, [], some, ◌≡◌, refl}

-- A request of a key with the title "second".
abbrev request : CreateApiKeyRequest
request = record { title = "second"; key_type = ApiKeyType.publishable }

abbrev all_zero : List ℕ
all_zero =
    0 ∷ 0 ∷ 0 ∷ 0 ∷ 0 ∷ 0 ∷ 0 ∷ 0 ∷ 0 ∷ 0 ∷ 0 ∷ 0 ∷ 0 ∷ 0 ∷ 0 ∷ 0 ∷ 0 ∷ 0 ∷ 0 ∷ 0 ∷ 0 ∷ 0 ∷ 0 ∷ 0
    ∷ 0 ∷ 0 ∷ 0 ∷ 0 ∷ 0 ∷ 0 ∷ 0 ∷ 0 ∷ []

-- In place of BLAKE3 a letter before the key.
abbrev state : AppState Keys ℕ
state = record {
  store = keys_store;
  crypto = record {
    which = Env.sandbox;
    random_string = λ length w. ("random", w);
    keyed_hash = λ hash_key key. String.◌∷◌ "#" key;
    hex_decode = λ text. some all_zero;
  };
  hash_key = "00";
  now = λ w. 7;
}

upsert_api_key-IsUpserted_example :
    let (r, w) =
      upsert_api_key keys_store "k1" (ApiKeyUpdate.revoke (some "m1") (some 9)) one_key in
    IsUpserted keys_contents "k1"
      (ApiKeyUpdate.revoke (some "m1") (some 9))
      one_key.keys
      (keys_contents.rows w)
      r
unfolding keys_contents
upsert_api_key-IsUpserted_example =
    upsert_api_key-IsUpserted keys_store keys_contents (λ w. refl) "k1"
      (ApiKeyUpdate.revoke (some "m1") (some 9)) one_key

retrieve_api_key-missing_example :
    (e : StorageError) × ((retrieve_api_key keys_store "k2" one_key).0 ≡ err e)
    × (api_not_found {Json = String} ApiErrorResponse.api_key_not_found e
        ≡ ApiErrorResponse.internal_server_error)
unfolding keys_contents
retrieve_api_key-missing_example =
    retrieve_api_key-missing keys_store keys_contents (λ w. refl) "k2"
      ApiErrorResponse.api_key_not_found one_key refl

-- A table whose id has no default.
abbrev refusing_state : AppState Keys ℕ
refusing_state = record state {
  store = record keys_store {
    table = record keys_table { insert_into = λ values w. (err DieselError.other, w) };
  };
}

authenticate_api_key-IsAuthenticated_example :
    let (r, w) = authenticate_api_key keys_store "hash" one_key in
    IsAuthenticated keys_table keys_contents "hash" one_key.keys w.keys r
unfolding keys_contents
authenticate_api_key-IsAuthenticated_example =
    authenticate_api_key-IsAuthenticated keys_store keys_contents (λ w. refl) "hash" one_key
