-- ===== src/ApiKeys/Plaintext.antt =====
-- `PlaintextApiKey` of crates/data_models/src/api_key.rs, and the environment's prefix of
-- crates/router_env/src/env.rs. The random texts, BLAKE3 and hex are other crates', and parameters.
use mercado.Api.Errors.{ApiErrorResponse}
use mercado.Prelude.Results.{Result, ◌>>=◌, ok_or, ok, err}
use mercado.ApiKeys.Rows.{HashedApiKey, hashed_from}
use mercado.Prelude.{
  List, String, ℕ, Option, concat_texts, suc, zero, ◌∷◌, [], if◌then◌else◌, length, ◌==◌,
}

pub data Env : Type 0 where
  development sandbox production : Env

unfoldable pub prefix_for_env : Env → String
prefix_for_env Env.development = "dev"
prefix_for_env Env.sandbox = "snd"
prefix_for_env Env.production = "prd"

pub record Crypto (W : Type 0) : Type 0 where
  -- `env::which()`
  pub which : Env
  -- `generate_cryptographically_secure_random_string(length)`
  pub random_string : ℕ → W → String × W
  -- `blake3::keyed_hash(key, bytes).to_hex()`
  pub keyed_hash : List ℕ → String → String
  -- `hex::decode`
  pub hex_decode : String → Option (List ℕ)

-- The key is secret; `peek` reads it.
pub record PlaintextApiKey : Type 0 where
  pub peek : String

abbrev pub hash_key_len : ℕ
hash_key_len = 32

abbrev pub prefix_len : ℕ
prefix_len = 12

-- `chars().take(n).collect()`
unfoldable pub take_chars : ℕ → String → String
take_chars zero s = ""
take_chars (suc n) String.[] = ""
take_chars (suc n) (String.◌∷◌ c s) = String.◌∷◌ c (take_chars n s)

unfoldable pub prefix : PlaintextApiKey → String
unfolding take_chars
prefix key = take_chars prefix_len key.peek

module _ {W : Type 0} (crypto : Crypto W) where
  unfoldable pub new : ℕ → W → PlaintextApiKey × W
  unfolding prefix_for_env
  new length w =
      let (key, w') = crypto.random_string length w in
      (record { peek = concat_texts (prefix_for_env crypto.which ∷ "_" ∷ key ∷ []) }, w')

  unfoldable pub keyed_hash : PlaintextApiKey → List ℕ → HashedApiKey
  keyed_hash key hash_key = hashed_from (crypto.keyed_hash hash_key key.peek)

  -- `<[u8; 32]>::try_from`
  of_hash_key_len : {Json : Type 0} → List ℕ → Result (ApiErrorResponse Json) (List ℕ)
  of_hash_key_len bytes =
      if length bytes == hash_key_len then ok bytes else err ApiErrorResponse.internal_server_error

  -- `ApiKeys::get_hash_key`, of the configured text. The first key that is read is kept.
  unfoldable pub get_hash_key : {Json : Type 0} → String → Result (ApiErrorResponse Json) (List ℕ)
  unfolding of_hash_key_len
  get_hash_key hash_key = do
    bytes ← ok_or (crypto.hex_decode hash_key) ApiErrorResponse.internal_server_error
    of_hash_key_len bytes
