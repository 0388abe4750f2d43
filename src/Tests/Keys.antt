-- ===== src/Tests/Keys.antt =====
-- A table of API keys in memory, which keeps the laws that the code relies on. Times are numbers, and
-- the generated id of a new key is one letter longer than that of the last one.
use mercado.Db.Table.{DieselError}
use mercado.Prelude.Exec.{pure}
use mercado.Prelude.Results.{Result, ok, err}
use mercado.Db.Contents.{Contents, row_with, IsFound, IsSelected, IsUpdatedById, change_rows}
use mercado.ApiKeys.Service.{KeyStore, KeyTable}
use mercado.ApiKeys.Rows.{ApiKey, ApiKeyUpdateInternal, ApiKeyNew, ApiKeyType}
use mercado.Prelude.{
  List, Option, String, some, ℕ, Bool, none, ◌≡◌, All, false, ◌++◌, ◌∷◌, Bool-cases, [],
  if◌then◌else◌, true, inl, refl, inr,
}
use mathlib.Core.List.{Mem, mem-cons_of_mem, mem-cons_self}

pub record Keys : Type 0 where
  pub keys : List (ApiKey ℕ)
  pub last_id : String

abbrev pub or_old : {A : Type 0} → Option A → A → A
or_old none old = old
or_old (some a) old = a

abbrev pub applied : ApiKeyUpdateInternal ℕ → ApiKey ℕ → ApiKey ℕ
applied c k = record k {
  token = or_old c.token k.token;
  salt = or_old c.salt k.salt;
  redacted = or_old c.redacted k.redacted;
  title = or_old c.title k.title;
  key_type = or_old c.key_type k.key_type;
  last_used_at = or_old c.last_used_at k.last_used_at;
  created_by = or_old c.created_by k.created_by;
  created_at = or_old c.created_at k.created_at;
  revoked_by = or_old c.revoked_by k.revoked_by;
  revoked_at = or_old c.revoked_at k.revoked_at;
}

abbrev pub made : String → ApiKeyNew ℕ → ApiKey ℕ
made id n = record {
  id = id;
  token = n.token;
  salt = n.salt;
  redacted = n.redacted;
  title = n.title;
  key_type = n.key_type;
  last_used_at = n.last_used_at;
  created_by = n.created_by;
  created_at = n.created_at;
  revoked_by = n.revoked_by;
  revoked_at = n.revoked_at;
}

abbrev pub key_id : ApiKey ℕ → String
key_id k = k.id

abbrev pub or_missing : Option (ApiKey ℕ) → Result DieselError (ApiKey ℕ)
or_missing none = err DieselError.not_found
or_missing (some k) = ok k

abbrev pub updated_row :
    String
    → ApiKeyUpdateInternal ℕ
    → Option (ApiKey ℕ)
    → Keys
    → Result DieselError (ApiKey ℕ) × Keys
updated_row id c none w = (err DieselError.not_found, w)
updated_row id c (some k) w =
    (ok (applied c k), record w { keys = change_rows key_id id (applied c) w.keys })

abbrev pub first_passing : (ApiKey ℕ → Bool) → List (ApiKey ℕ) → Option (ApiKey ℕ)
first_passing test [] = none
first_passing test (k ∷ ks) = let rest = first_passing test ks in if test k then some k else rest

abbrev pub keys_table : KeyTable Keys ℕ
keys_table = record {
  insert_into = λ n w.
      let id = String.◌∷◌ "k" w.last_id in
      (ok (made id n), record { keys = w.keys ++ made id n ∷ []; last_id = id });
  update_where = λ test c w. (err DieselError.other, w);
  update_returning = λ test c w. (err DieselError.other, w);
  update_by_id = λ id c w. updated_row id c (row_with key_id id w.keys) w;
  delete_where = λ test w. (err DieselError.other, w);
  delete_returning = λ test w. (err DieselError.other, w);
  find = λ id w. (or_missing (row_with key_id id w.keys), w);
  get_result = λ test w. (or_missing (first_passing test w.keys), w);
  get_results = λ test limit offset w. (err DieselError.other, w);
}

pub updated_row-IsUpdatedById :
    (id : String) (c : ApiKeyUpdateInternal ℕ) (o : Option (ApiKey ℕ)) (w : Keys)
    → row_with key_id id w.keys ≡ o
    → let (r, w') = updated_row id c o w in IsUpdatedById key_id id (applied c) w.keys w'.keys r
updated_row-IsUpdatedById id c none w e = (e, refl)
updated_row-IsUpdatedById id c (some k) w e = ((k, e, refl), refl)

pub or_missing-IsFound :
    (id : String) (o : Option (ApiKey ℕ)) (w : Keys)
    → row_with key_id id w.keys ≡ o
    → IsFound key_id id w.keys w.keys (or_missing o)
or_missing-IsFound id none w e = (e, refl)
or_missing-IsFound id (some k) w e = (e, refl)

-- What the first key that passes a test is.
abbrev pub IsFirst : (ApiKey ℕ → Bool) → List (ApiKey ℕ) → Option (ApiKey ℕ) → Type 0
IsFirst test keys none = All (λ k. test k ≡ false) keys
IsFirst test keys (some k) = (test k ≡ true) × Mem k keys

IsFirst-later :
    (test : ApiKey ℕ → Bool) (k : ApiKey ℕ) (ks : List (ApiKey ℕ)) (o : Option (ApiKey ℕ))
    → test k ≡ false
    → IsFirst test ks o
    → IsFirst test (k ∷ ks) o
IsFirst-later test k ks none fails h = (fails, h)
IsFirst-later test k ks (some found) fails (passes, is_stored) =
    (passes, mem-cons_of_mem k is_stored)

pub first_passing-IsFirst :
    (test : ApiKey ℕ → Bool) (keys : List (ApiKey ℕ)) → IsFirst test keys (first_passing test keys)
first_passing-IsFirst test [] = tt
first_passing-IsFirst test (k ∷ ks) = elim (Bool-cases (test k)) [
  | inl passes ↦ rw passes (passes, mem-cons_self)
  | inr fails ↦
      rw fails
        (IsFirst-later test k ks (first_passing test ks) fails (first_passing-IsFirst test ks))
]

pub or_missing-IsSelected :
    (test : ApiKey ℕ → Bool) (keys : List (ApiKey ℕ)) (o : Option (ApiKey ℕ))
    → IsFirst test keys o
    → IsSelected test keys keys (or_missing o)
or_missing-IsSelected test keys none h = (h, refl)
or_missing-IsSelected test keys (some k) (passes, is_stored) = (passes, is_stored, refl)

-- A changeset is always taken for one with a field, so no update ends in `QueryBuilderError`.
unfoldable pub keys_contents : Contents keys_table
keys_contents = record {
  id_of = key_id;
  rows = λ w. w.keys;
  apply = applied;
  new_row = made;
  update_by_id_lem = λ id c w. updated_row-IsUpdatedById id c (row_with key_id id w.keys) w refl;
  find_lem = λ id w. or_missing-IsFound id (row_with key_id id w.keys) w refl;
  insert_lem = λ values w. (refl, refl);
  get_result_lem = λ test w.
      or_missing-IsSelected test w.keys (first_passing test w.keys)
        (first_passing-IsFirst test w.keys);
}

abbrev pub keys_store : KeyStore Keys ℕ
keys_store = record { table = keys_table; master_pool_get = pure tt }

abbrev pub one_key : Keys
one_key = record {
  keys =
      record {
        id = "k1";
        token = record { into_inner = "hash" };
        salt = "dev";
        redacted = "dev";
        title = "first";
        key_type = ApiKeyType.secret;
        last_used_at = none;
        created_by = "m1";
        created_at = 1;
        revoked_by = none;
        revoked_at = none;
      }
      ∷ [];
  last_id = "k1";
}
