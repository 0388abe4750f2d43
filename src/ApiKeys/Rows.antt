-- ===== src/ApiKeys/Rows.antt =====
-- The rows of API keys and their updates, crates/diesel_models/src/api_key/api_key.rs. Times are those of
-- the time crate, a parameter.
use mercado.Prelude.Results.{Result, ◌>>=◌, ok_or, ok}
use mercado.Prelude.{Option, String, none, some}

-- crates/common_enums/src/enums.rs
pub data ApiKeyType : Type 0 where
  publishable secret : ApiKeyType

pub record HashedApiKey : Type 0 where
  pub into_inner : String

-- `HashedApiKey::from`
abbrev pub hashed_from : String → HashedApiKey
hashed_from hashed_api_key = record { into_inner = hashed_api_key }

pub record ApiKey (Time : Type 0) : Type 0 where
  pub id : String
  pub token : HashedApiKey
  pub salt : String
  pub redacted : String
  pub title : String
  pub key_type : ApiKeyType
  pub last_used_at : Option Time
  pub created_by : String
  pub created_at : Time
  pub revoked_by : Option String
  pub revoked_at : Option Time

pub record ApiKeyNew (Time : Type 0) : Type 0 where
  pub token : HashedApiKey
  pub salt : String
  pub redacted : String
  pub title : String
  pub key_type : ApiKeyType
  pub last_used_at : Option Time
  pub created_by : String
  pub created_at : Time
  pub revoked_by : Option String
  pub revoked_at : Option Time

pub data ApiKeyUpdate (Time : Type 0) : Type 0 where
  update :
      (title : Option String) (key_type : Option ApiKeyType) (last_used_at : Option (Option Time))
      (revoked_by : Option (Option String)) (revoked_at : Option (Option Time))
      → ApiKeyUpdate Time
  upsert :
      (token : Option HashedApiKey) (salt redacted title : Option String)
      (key_type : Option ApiKeyType) (created_by : Option String) (created_at : Option Time)
      (last_used_at : Option (Option Time)) (revoked_by : Option (Option String))
      (revoked_at : Option (Option Time))
      → ApiKeyUpdate Time
  revoke : (revoked_by : Option String) (revoked_at : Option Time) → ApiKeyUpdate Time
  last_used_update : (last_used_at : Option Time) → ApiKeyUpdate Time

pub record ApiKeyUpdateInternal (Time : Type 0) : Type 0 where
  pub token : Option HashedApiKey
  pub salt : Option String
  pub redacted : Option String
  pub title : Option String
  pub key_type : Option ApiKeyType
  pub created_by : Option String
  pub created_at : Option Time
  pub last_used_at : Option (Option Time)
  pub revoked_by : Option (Option String)
  pub revoked_at : Option (Option Time)

module _ {Time : Type 0} where
  -- `ApiKeyUpdateInternal::from`
  unfoldable pub internal_from : ApiKeyUpdate Time → ApiKeyUpdateInternal Time
  internal_from (update title key_type last_used_at revoked_by revoked_at) = record {
    token = none;
    salt = none;
    redacted = none;
    title = title;
    key_type = key_type;
    created_by = none;
    created_at = none;
    last_used_at = last_used_at;
    revoked_by = revoked_by;
    revoked_at = revoked_at;
  }
  internal_from
        (upsert token salt redacted title key_type created_by created_at last_used_at revoked_by
          revoked_at) =
      record {
        token = token;
        salt = salt;
        redacted = redacted;
        title = title;
        key_type = key_type;
        created_by = created_by;
        created_at = created_at;
        last_used_at = last_used_at;
        revoked_by = revoked_by;
        revoked_at = revoked_at;
      }
  internal_from (revoke revoked_by revoked_at) = record {
    token = none;
    salt = none;
    redacted = none;
    title = none;
    key_type = none;
    created_by = none;
    created_at = none;
    last_used_at = none;
    revoked_by = some revoked_by;
    revoked_at = some revoked_at;
  }
  internal_from (last_used_update last_used_at) = record {
    token = none;
    salt = none;
    redacted = none;
    title = none;
    key_type = none;
    created_by = none;
    created_at = none;
    last_used_at = some last_used_at;
    revoked_by = none;
    revoked_at = none;
  }

  -- `ApiKeyNew::try_from`
  unfoldable pub try_from : ApiKeyUpdateInternal Time → Result String (ApiKeyNew Time)
  try_from u = do
    token ← ok_or u.token "token is required"
    salt ← ok_or u.salt "salt is required"
    redacted ← ok_or u.redacted "redacted is required"
    title ← ok_or u.title "title is required"
    key_type ← ok_or u.key_type "type is required"
    last_used_at ← ok_or u.last_used_at "last_used_at is required"
    created_by ← ok_or u.created_by "created_by is required"
    created_at ← ok_or u.created_at "created_at is required"
    revoked_by ← ok_or u.revoked_by "revoked_by is required"
    revoked_at ← ok_or u.revoked_at "revoked_at is required"
    ok (record {
      token = token;
      salt = salt;
      redacted = redacted;
      title = title;
      key_type = key_type;
      last_used_at = last_used_at;
      created_by = created_by;
      created_at = created_at;
      revoked_by = revoked_by;
      revoked_at = revoked_at;
    })
