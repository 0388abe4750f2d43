-- ===== src/Storage/Kv/Visits.antt =====
-- The streams of the router and those of the drainer: `get_drainer_stream_name` of
-- crates/storage_impl/src/lib.rs and of crates/drainer/src/stream.rs.
use mercado.Drainer.Streams
use mercado.Storage.Kv
use text.Mathlib.TextLemmas.{append-nil}
use native.Mathlib.Nat.{mod-lt}
use mercado.Drainer.Streams.{DrainerStore, u8_to_text}
use mercado.Storage.Kv.{
  KvRouterStore, partition_number, shard_key, PartitionKey, merchant_id_payment_id_combination,
  to_string,
}
use mercado.Prelude.{ℕ, ◌<◌, ◌≡◌, String, arith, ◌≤◌, ◌*◌, suc, ◌+◌, ap, refl, ◌∙◌}
use mercado.Drainer.Index.Cycle.{increments-cycle, after}

-- The stream of the shard of a key, which `push_to_drainer_stream` appends to.
abbrev pub stream_of : {W Op : Type 0} → KvRouterStore W Op → (key : String) → String
stream_of store key =
    Kv.get_drainer_stream_name store
      (shard_key store.hash (merchant_id_payment_id_combination key) store.drainer_num_partitions)

suc_mul : (q n : ℕ) → suc q * n ≡ n + q * n
suc_mul q n = omega arith

module _ {W V Op : Type 0} (store : KvRouterStore W Op) (drainer : DrainerStore V)
    (same_name : drainer.config.drainer_stream_name ≡ store.drainer_stream_name) where
  shard_stream :
      (key : PartitionKey) (n : ℕ)
      → Streams.get_drainer_stream_name drainer (partition_number store.hash key n)
        ≡ Kv.get_drainer_stream_name store (shard_key store.hash key n)
  unfolding Streams.get_drainer_stream_name Streams.drainer_stream Kv.get_drainer_stream_name
      shard_key
  shard_stream key n =
      rw
        (
          same_name,
          append-nil (u8_to_text (partition_number store.hash key n)),
          append-nil store.drainer_stream_name,
        )
        refl

  partition_number_lt : (key : PartitionKey) (n : ℕ) → 0 < n → partition_number store.hash key n < n
  unfolding partition_number
  partition_number_lt key n h = mod-lt (store.hash (to_string key)) h

  -- Where the router and the drainer are configured with the same stream name and the same 1 to
  -- 255 partitions, the drainer comes in every cycle of its increments to the stream that a write
  -- of the key-value store pushes the key's entries to.
  pub visits-stream_of :
      (key : String) (jobs_picked q : ℕ)
      → 0 < store.drainer_num_partitions
      → store.drainer_num_partitions ≤ 255
      → let n = store.drainer_num_partitions in
        (k : ℕ) × (q * n ≤ k)
        × (k < suc q * n)
        × (Streams.get_drainer_stream_name drainer (after n jobs_picked k).0 ≡ stream_of store key)
  visits-stream_of key jobs_picked q positive small =
      let n = store.drainer_num_partitions in
      let r = partition_number store.hash (merchant_id_payment_id_combination key) n in
      (
        q * n + r,
        omega arith,
        omega (
          arith,
          partition_number_lt (merchant_id_payment_id_combination key) n positive,
          suc_mul q n,
        ),
        ap (λ s. Streams.get_drainer_stream_name drainer s.0)
              (increments-cycle n jobs_picked q r
                (partition_number_lt (merchant_id_payment_id_combination key) n positive) small)
            ∙ shard_stream (merchant_id_payment_id_combination key) n,
      )
