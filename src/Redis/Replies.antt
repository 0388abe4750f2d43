-- ===== src/Redis/Replies.antt =====
-- The replies of Redis and what the code reads from them: crates/redis_interface/src/types.rs.
use Prim.Native.String.{◌++◌ as str_append}
use mercado.Prelude.Int.{ℤ, pos}
use mercado.Prelude.Results.{Result, ok, err}
use mercado.Prelude.{String, suc, zero}

-- `fred::types::RedisValue`, as far as the code tells its variants apart.
pub data FredValue : Type 0 where
  string : String → FredValue
  null : FredValue
  integer : ℤ → FredValue
  other : FredValue

-- `fred::error::RedisErrorKind`, as far as the code tells its variants apart.
pub data RedisErrorKind : Type 0 where
  not_found parse unknown other_kind : RedisErrorKind

pub data SetnxReply : Type 0 where
  key_set key_not_set : SetnxReply

pub data HsetnxReply : Type 0 where
  key_set key_not_set : HsetnxReply

pub data MsetnxReply : Type 0 where
  keys_set keys_not_set : MsetnxReply

pub data DelReply : Type 0 where
  key_deleted key_not_deleted : DelReply

pub data SaddReply : Type 0 where
  key_set key_not_set : SaddReply

-- The answer 1, the answer 0, and every other.
one_or_zero : {A : Type 0} → A → A → FredValue → Result RedisErrorKind A
one_or_zero all_set none_set (integer (pos (suc zero))) = ok all_set
one_or_zero all_set none_set (integer (pos zero)) = ok none_set
one_or_zero all_set none_set _ = err unknown

unfoldable pub setnx_from_value : FredValue → Result RedisErrorKind SetnxReply
setnx_from_value (string s) = ok SetnxReply.key_set
setnx_from_value null = ok SetnxReply.key_not_set
setnx_from_value _ = err unknown

unfoldable pub hsetnx_from_value : FredValue → Result RedisErrorKind HsetnxReply
unfolding one_or_zero
hsetnx_from_value v = one_or_zero HsetnxReply.key_set HsetnxReply.key_not_set v

unfoldable pub msetnx_from_value : FredValue → Result RedisErrorKind MsetnxReply
unfolding one_or_zero
msetnx_from_value v = one_or_zero MsetnxReply.keys_set MsetnxReply.keys_not_set v

unfoldable pub del_from_value : FredValue → Result RedisErrorKind DelReply
unfolding one_or_zero
del_from_value v = one_or_zero DelReply.key_deleted DelReply.key_not_deleted v

unfoldable pub sadd_from_value : FredValue → Result RedisErrorKind SaddReply
unfolding one_or_zero
sadd_from_value v = one_or_zero SaddReply.key_set SaddReply.key_not_set v

pub data RedisEntryId : Type 0 where
  user_specified_id : (milliseconds sequence_number : String) → RedisEntryId
  auto_generated_id after_last_id undelivered_entry_id : RedisEntryId

-- `fred::types::XID`
pub data Xid : Type 0 where
  manual : String → Xid
  auto max new_in_group : Xid

unfoldable pub to_xid : RedisEntryId → Xid
to_xid (user_specified_id milliseconds sequence_number) =
    manual (str_append milliseconds (str_append "-" sequence_number))
to_xid auto_generated_id = auto
to_xid after_last_id = max
to_xid undelivered_entry_id = new_in_group

pub data StreamCapKind : Type 0 where
  min_id max_len : StreamCapKind

pub data StreamCapTrim : Type 0 where
  exact almost_exact : StreamCapTrim
