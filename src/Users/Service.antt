-- ===== src/Users/Service.antt =====
-- `impl UserInterface for Store`, crates/modules/src/service/user.rs, and the statements of
-- crates/diesel_models/src/user/repository.rs, without the lists, whose query is diesel's.
use mercado.Db.ById.{update_or_find}
use mercado.Db.Generics.{
  generic_find_by_id, generic_insert, generic_delete, generic_find_by_id_optional,
}
use mercado.Errors.{DatabaseError, StorageError}
use mercado.Prelude.Exec.{Exec, map_error, ◌>>◌}
use mercado.Users.Rows.{
  InviteNew, UserNew, Invite, InviteUpdate, User, UserUpdate, InviteUpdateInternal,
  UserUpdateInternal, invite_internal_from, user_internal_from,
}
use mercado.Db.Table.{Table}
use mercado.Prelude.{String, Bool, Option, str_eq}

abbrev pub UserTable : Type 0 → Type 0 → Type 0 → Type 0
UserTable W Time Json = Table W (User Time Json) (UserNew Time Json) (UserUpdateInternal Time Json)

abbrev pub InviteTable : Type 0 → Type 0 → Type 0 → Type 0
InviteTable W Time Json =
    Table W (Invite Time Json) (InviteNew Time Json) (InviteUpdateInternal Time Json)

module _ {W Time Json : Type 0} (table : InviteTable W Time Json) where
  pub insert_invite : InviteNew Time Json → Exec W DatabaseError (Invite Time Json)
  insert_invite invite = generic_insert table invite

  pub find_invite_by_id : String → Exec W DatabaseError (Invite Time Json)
  find_invite_by_id id = generic_find_by_id table id

  pub find_optional_invite_by_id : String → Exec W DatabaseError (Option (Invite Time Json))
  find_optional_invite_by_id id = generic_find_by_id_optional table id

  unfoldable pub update_invite_by_id :
      String → InviteUpdate Json → Exec W DatabaseError (Invite Time Json)
  update_invite_by_id id values = update_or_find table id (invite_internal_from values)

  pub delete_invite_by_id : String → Exec W DatabaseError Bool
  delete_invite_by_id id = generic_delete table (λ invite. str_eq invite.id id)

pub record UserStore (W Time Json : Type 0) : Type 0 where
  pub table : UserTable W Time Json
  -- `pool.get()` of the master pool
  pub master_pool_get : Exec W (Unit {0}) (Unit {0})

module _ {W Time Json : Type 0} (store : UserStore W Time Json) where
  pg_connection : Exec W StorageError (Unit {0})
  pg_connection = map_error (λ _. StorageError.database_connection_error) store.master_pool_get

  unfoldable pub retrieve_user : String → Exec W StorageError (User Time Json)
  unfolding pg_connection
  retrieve_user user_id = do
    pg_connection
    map_error StorageError.database_error (generic_find_by_id store.table user_id)

  unfoldable pub insert_user : UserNew Time Json → Exec W StorageError (User Time Json)
  unfolding pg_connection
  insert_user user = do
    pg_connection
    map_error StorageError.database_error (generic_insert store.table user)

  unfoldable pub update_user : String → UserUpdate Time Json → Exec W StorageError (User Time Json)
  unfolding pg_connection
  update_user user_id user = do
    pg_connection
    map_error StorageError.database_error
        (update_or_find store.table user_id (user_internal_from user))

  unfoldable pub delete_user : String → Exec W StorageError Bool
  unfolding pg_connection
  delete_user user_id = do
    pg_connection
    map_error StorageError.database_error
        (generic_delete store.table (λ user. str_eq user.id user_id))
