-- ===== src/ApiKeys/Create.antt =====
-- `create_api_key` of crates/modules/src/core/api_key.rs, with the request and the response of
-- crates/api_models/src/api_keys.rs and the conversion of crates/data_models/src/transformers.rs.
use mercado.Prelude.Results.{ok}
use mercado.Api.Errors.{ApiErrorResponse}
use mercado.Prelude.Exec.{Exec, ◌>>=◌, lift, map_error, pure}
use mercado.ApiKeys.Plaintext.{Crypto, PlaintextApiKey, keyed_hash, prefix, get_hash_key, new}
use mercado.ApiKeys.Service.{KeyStore, insert_api_key}
use mercado.ApiKeys.Rows.{ApiKey, ApiKeyType, ApiKeyNew}
use mercado.Prelude.{String, ℕ, List, Option, none}

pub record CreateApiKeyRequest : Type 0 where
  pub title : String
  pub key_type : ApiKeyType

pub record CreateApiKeyResponse (Time : Type 0) : Type 0 where
  pub id : String
  pub token : String
  pub salt : String
  pub redacted : String
  pub title : String
  pub key_type : ApiKeyType
  pub last_used_at : Option Time
  pub created_by : String
  pub created_at : Time
  pub revoked_by : Option String
  pub revoked_at : Option Time

-- `CreateApiKeyResponse::foreign_from`
unfoldable pub foreign_from :
    {Time : Type 0} → ApiKey Time → PlaintextApiKey → CreateApiKeyResponse Time
foreign_from api_key plaintext_api_key = record {
  id = api_key.id;
  token = plaintext_api_key.peek;
  salt = api_key.salt;
  redacted = api_key.redacted;
  title = api_key.title;
  key_type = api_key.key_type;
  last_used_at = api_key.last_used_at;
  created_by = api_key.created_by;
  created_at = api_key.created_at;
  revoked_by = api_key.revoked_by;
  revoked_at = api_key.revoked_at;
}

abbrev pub api_key_length : ℕ
api_key_length = 64

pub record AppState (W Time : Type 0) : Type 0 where
  pub store : KeyStore W Time
  pub crypto : Crypto W
  -- the configured text of the hash key
  pub hash_key : String
  -- `date_time::now()`
  pub now : W → Time

module _ {W Time : Type 0} (state : AppState W Time) where
  -- The `ApiKeyNew` of a request.
  unfoldable pub new_key :
      CreateApiKeyRequest → String → List ℕ → PlaintextApiKey → Time → ApiKeyNew Time
  new_key api_key merchant_id hash_key plaintext now = record {
    token = keyed_hash state.crypto plaintext hash_key;
    salt = prefix plaintext;
    redacted = prefix plaintext;
    title = api_key.title;
    key_type = api_key.key_type;
    last_used_at = none;
    created_by = merchant_id;
    created_at = now;
    revoked_by = none;
    revoked_at = none;
  }

module _ {W Time Json : Type 0} (state : AppState W Time) where
  unfoldable pub create_api_key :
      CreateApiKeyRequest → String → Exec W (ApiErrorResponse Json) (CreateApiKeyResponse Time)
  unfolding new_key
  create_api_key api_key merchant_id = do
    hash_key ← lift (get_hash_key state.crypto state.hash_key)
    plaintext ← λ w. let (key, w') = new state.crypto api_key_length w in (ok key, w')
    now ← λ w. (ok (state.now w), w)
    inserted ←
        map_error (λ _. ApiErrorResponse.internal_server_error)
          (insert_api_key state.store (new_key state api_key merchant_id hash_key plaintext now))
    pure (foreign_from inserted plaintext)
