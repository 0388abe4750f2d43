-- ===== src/Redis/Groups.antt =====
-- The commands on the length of streams and on consumer groups, of
-- crates/redis_interface/src/commands.rs.
use mercado.Prelude.{String, ℕ, List}
use mercado.Prelude.Exec.{Exec, map_error}
use mercado.Redis.Replies.{RedisErrorKind, RedisEntryId, to_xid, Xid}
use mercado.Errors.{
  RedisError, get_length_failed, consumer_group_destroy_failed,
  consumer_group_remove_consumer_failed, consumer_group_set_id_failed, consumer_group_claim_failed,
}

-- The further commands of fred; `Claimed` is what an answer of XCLAIM is turned into.
pub record FredGroups (W Claimed : Type 0) : Type 0 where
  -- XLEN stream
  pub xlen : String → Exec W RedisErrorKind ℕ
  -- XGROUP DESTROY stream group
  pub xgroup_destroy : String → String → Exec W RedisErrorKind ℕ
  -- XGROUP DELCONSUMER stream group consumer
  pub xgroup_delconsumer : String → String → String → Exec W RedisErrorKind ℕ
  -- XGROUP SETID stream group id
  pub xgroup_setid : String → String → Xid → Exec W RedisErrorKind String
  -- XCLAIM stream group consumer min_idle_time ids, with no further option
  pub xclaim :
      (stream group consumer : String)
      → (min_idle_time : ℕ) → List String
      → Exec W RedisErrorKind Claimed

module _ {W Claimed : Type 0} (groups : FredGroups W Claimed) where
  unfoldable pub stream_get_length : String → Exec W RedisError ℕ
  stream_get_length stream = map_error (λ _. get_length_failed) (groups.xlen stream)

  unfoldable pub consumer_group_destroy : String → String → Exec W RedisError ℕ
  consumer_group_destroy stream group =
      map_error (λ _. consumer_group_destroy_failed) (groups.xgroup_destroy stream group)

  unfoldable pub consumer_group_delete_consumer : String → String → String → Exec W RedisError ℕ
  consumer_group_delete_consumer stream group consumer =
      map_error (λ _. consumer_group_remove_consumer_failed)
        (groups.xgroup_delconsumer stream group consumer)

  unfoldable pub consumer_group_set_last_id :
      String → String → RedisEntryId → Exec W RedisError String
  unfolding to_xid
  consumer_group_set_last_id stream group id =
      map_error (λ _. consumer_group_set_id_failed) (groups.xgroup_setid stream group (to_xid id))

  unfoldable pub consumer_group_set_message_owner :
      (stream group consumer : String)
      → (min_idle_time : ℕ) → List String
      → Exec W RedisError Claimed
  consumer_group_set_message_owner stream group consumer min_idle_time ids =
      map_error (λ _. consumer_group_claim_failed)
        (groups.xclaim stream group consumer min_idle_time ids)
