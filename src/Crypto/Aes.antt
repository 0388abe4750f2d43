-- ===== src/Crypto/Aes.antt =====
-- `GcmAes256` of crates/common_utils/src/crypto.rs.
pub mod RoundTrip
use mercado.Prelude.{List, Option, ℕ, drop, if◌then◌else◌, some, ◌++◌, leb, none, length, take}
use mercado.Prelude.Results.{Result, ok, err, ok_or}
use mercado.Prelude.Exec.{Exec, lift, pure, map_error, ◌>>=◌}
use mercado.Crypto.Nonces.{from_bytes, current, advance, nonce_len}

-- crates/common_utils/src/errors.rs
pub data CryptoError : Type 0 where
  encoding_failed decoding_failed message_signing_failed : CryptoError
  signature_verification_failed : CryptoError

-- AES-256-GCM of ring, with no additional data, and its random numbers.
pub record Aead (W Key : Type 0) : Type 0 where
  -- `SystemRandom::fill`
  pub fill : (count : ℕ) → W → Option (List ℕ) × W
  -- `UnboundKey::new`
  pub unbound_key : (secret : List ℕ) → Option Key
  -- `seal_in_place_append_tag` and `open_within`, with the nonce that the sequence advances from
  pub seal : Key → (nonce message : List ℕ) → Option (List ℕ)
  pub open_within : Key → (nonce ciphertext : List ℕ) → Option (List ℕ)

module _ {W Key : Type 0} (aead : Aead W Key) where
  fill_result : Option (List ℕ) × W → Result CryptoError ℕ × W
  fill_result (none, w) = (err CryptoError.encoding_failed, w)
  fill_result (some bytes, w) = (ok (from_bytes bytes), w)

  -- `NonceSequence::new`, with the context that its caller gives its error.
  unfoldable pub new_sequence : Exec W CryptoError ℕ
  unfolding fill_result
  new_sequence w = fill_result (aead.fill nonce_len w)

  unfoldable pub encode_message : (secret msg : List ℕ) → Exec W CryptoError (List ℕ)
  encode_message secret msg = do
    nonce_sequence ← new_sequence
    let current_nonce = current nonce_sequence
    key ← lift (ok_or (aead.unbound_key secret) CryptoError.encoding_failed)
    let (nonce, advanced) = advance nonce_sequence
    in_out ← lift (ok_or (aead.seal key nonce msg) CryptoError.encoding_failed)
    pure (current_nonce ++ in_out)

  -- `msg.get(..NONCE_LEN)`
  first_bytes : ℕ → List ℕ → Option (List ℕ)
  first_bytes n msg = if leb n (length msg) then some (take n msg) else none

  unfoldable pub decode_message : (secret msg : List ℕ) → Exec W CryptoError (List ℕ)
  unfolding first_bytes
  decode_message secret msg = do
    key ← lift (ok_or (aead.unbound_key secret) CryptoError.decoding_failed)
    nonce_bytes ← lift (ok_or (first_bytes nonce_len msg) CryptoError.decoding_failed)
    let (nonce, advanced) = advance (from_bytes nonce_bytes)
    result ←
        lift (ok_or (aead.open_within key nonce (drop nonce_len msg)) CryptoError.decoding_failed)
    pure result
