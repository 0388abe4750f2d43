-- ===== src/Users/Rows.antt =====
-- The rows of users and invitations and their updates, crates/diesel_models/src/user/user.rs and
-- invite.rs. Times and JSON values are parameters.
use mercado.Prelude.{Option, String, none, Bool}

pub record User (Time Json : Type 0) : Type 0 where
  pub id : String
  pub first_name : Option String
  pub last_name : Option String
  pub email : String
  pub avatar_url : Option String
  pub metadata : Option Json
  pub created_at : Time
  pub updated_at : Time
  pub deleted_at : Option Time

pub record UserNew (Time Json : Type 0) : Type 0 where
  pub first_name : Option String
  pub last_name : Option String
  pub email : String
  pub avatar_url : Option String
  pub metadata : Option Json
  pub created_at : Time
  pub updated_at : Time
  pub deleted_at : Option Time

pub record UserUpdateInternal (Time Json : Type 0) : Type 0 where
  pub id : Option String
  pub first_name : Option (Option String)
  pub last_name : Option (Option String)
  pub avatar_url : Option (Option String)
  pub metadata : Option (Option Json)
  pub updated_at : Option Time

pub data UserUpdate (Time Json : Type 0) : Type 0 where
  update :
      (id : Option String) (first_name last_name avatar_url : Option (Option String))
      (metadata : Option (Option Json)) (updated_at : Option Time)
      → UserUpdate Time Json

-- `UserUpdateInternal::from`
unfoldable pub user_internal_from :
    {Time Json : Type 0} → UserUpdate Time Json → UserUpdateInternal Time Json
user_internal_from (UserUpdate.update id first_name last_name avatar_url metadata updated_at) =
    record {
      id = id;
      first_name = first_name;
      last_name = last_name;
      avatar_url = avatar_url;
      metadata = metadata;
      updated_at = updated_at;
    }

pub record Invite (Time Json : Type 0) : Type 0 where
  pub id : String
  pub email : String
  pub accepted : Bool
  pub token : String
  pub expires_at : Time
  pub metadata : Option Json
  pub created_at : Time
  pub updated_at : Time
  pub deleted_at : Option Time

pub record InviteNew (Time Json : Type 0) : Type 0 where
  pub email : String
  pub accepted : Bool
  pub token : String
  pub expires_at : Time
  pub metadata : Option Json
  pub created_at : Time
  pub updated_at : Time
  pub deleted_at : Option Time

pub record InviteUpdateInternal (Time Json : Type 0) : Type 0 where
  pub id : Option String
  pub accepted : Option Bool
  pub metadata : Option (Option Json)
  pub updated_at : Option Time

pub data InviteUpdate (Json : Type 0) : Type 0 where
  update :
      (id : Option String) (accepted : Option Bool) (metadata : Option (Option Json))
      → InviteUpdate Json

-- `InviteUpdateInternal::from`
unfoldable pub invite_internal_from :
    {Time Json : Type 0} → InviteUpdate Json → InviteUpdateInternal Time Json
invite_internal_from (InviteUpdate.update id accepted metadata) = record {
  id = id;
  accepted = accepted;
  metadata = metadata;
  updated_at = none;
}
