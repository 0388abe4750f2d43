-- ===== src/Crypto/Aes/RoundTrip.antt =====
-- What is encrypted is decrypted.
use mercado.Prelude.{inl, inr, Option-cases}
use mercado.Prelude.{
  List, ℕ, length, ◌≡◌, drop, some, take, ◌++◌, suc, ◌∷◌, ap, arith, [], zero, refl, Option, leb,
  none, true, length-append,
}
use mercado.Crypto.Aes.{
  Aead, encode_message, decode_message, new_sequence, first_bytes, fill_result, CryptoError, List,
  ℕ, length, drop, some, take, Option, leb,
}
use mercado.Crypto.Nonces.{advance, nonce_len}
use mercado.Crypto.Nonces.Laws.{IsBytes, current-from_bytes}
use mercado.Prelude.Results.{Result, ok, err}

-- Random bytes are bytes, as many as were asked for, and AES-GCM opens what it has sealed with the
-- same key and nonce.
pub record AeadLaws {W Key : Type 0} (aead : Aead W Key) : Type 0 where
  pub fills :
      (count : ℕ) (w : W) (bytes : List ℕ)
      → (aead.fill count w).0 ≡ some bytes
      → IsBytes count bytes
  pub opens :
      (key : Key) (nonce message ciphertext : List ℕ)
      → aead.seal key nonce message ≡ some ciphertext
      → aead.open_within key nonce ciphertext ≡ some message

take_front : {A : Type 0} (xs ys : List A) (n : ℕ) → length xs ≡ n → take n (xs ++ ys) ≡ xs
take_front [] ys zero e = refl
take_front [] ys (suc n) e = cc
take_front (x ∷ xs) ys zero e = cc
take_front (x ∷ xs) ys (suc n) e = ap (λ l. x ∷ l) (take_front xs ys n (omega (arith, e)))

drop_front : {A : Type 0} (xs ys : List A) (n : ℕ) → length xs ≡ n → drop n (xs ++ ys) ≡ ys
drop_front [] ys zero e = refl
drop_front [] ys (suc n) e = cc
drop_front (x ∷ xs) ys zero e = cc
drop_front (x ∷ xs) ys (suc n) e = drop_front xs ys n (omega (arith, e))

enough : (xs ys : List ℕ) → length xs ≡ nonce_len → leb nonce_len (length (xs ++ ys)) ≡ true
enough xs ys e = ground (arith, length-append xs ys)

module _ {W Key : Type 0} (aead : Aead W Key) (laws : AeadLaws aead) (secret : List ℕ) where
  -- What an encryption answers is the nonce and then what was sealed.
  abbrev pub IsDecodable : (msg : List ℕ) → Result CryptoError (List ℕ) → Type 0
  IsDecodable msg (err e) = e ≡ CryptoError.encoding_failed
  IsDecodable msg (ok c) = (w : W) → decode_message aead secret c w ≡ (ok msg, w)

  first_bytes-front :
      (nonce sealed : List ℕ)
      → length nonce ≡ nonce_len
      → first_bytes aead nonce_len (nonce ++ sealed) ≡ some nonce
  unfolding first_bytes
  first_bytes-front nonce sealed twelve =
      rw (enough nonce sealed twelve, take_front nonce sealed nonce_len twelve) refl

  sealed_decodes :
      (key : Key) (nonce msg sealed : List ℕ) (w : W)
      → IsBytes nonce_len nonce
      → aead.unbound_key secret ≡ some key
      → aead.seal key nonce msg ≡ some sealed
      → decode_message aead secret (nonce ++ sealed) w ≡ (ok msg, w)
  unfolding decode_message advance
  sealed_decodes key nonce msg sealed w bytes has_key was_sealed =
      rw
        (
          has_key,
          first_bytes-front nonce sealed bytes.0,
          current-from_bytes nonce bytes,
          drop_front nonce sealed nonce_len bytes.0,
          laws.opens key nonce msg sealed was_sealed,
        )
        refl

  encoded :
      (filled : Option (List ℕ) × W) (msg : List ℕ)
      → ((bytes : List ℕ) → filled.0 ≡ some bytes → IsBytes nonce_len bytes)
      → IsDecodable msg
          (encode_message (record aead { fill = λ count w. filled }) secret msg filled.1).0
  unfolding encode_message new_sequence fill_result advance
  encoded (none, w) msg bytes = refl
  encoded (some nonce, w) msg bytes = elim (Option-cases (aead.unbound_key secret)) [
    | inl no_key ↦ rw no_key refl
    | inr (key, has_key) ↦
        rw (has_key, current-from_bytes nonce (bytes nonce refl))
          (elim (Option-cases (aead.seal key nonce msg)) [
            | inl unsealed ↦ rw unsealed refl
            | inr (sealed, was_sealed) ↦
                rw was_sealed (λ w'.
                  sealed_decodes key nonce msg sealed w' (bytes nonce refl) has_key was_sealed)
          ])
  ]

  -- What GcmAes256 has encrypted, it decrypts to the same message with the same secret, in any state;
  -- and if it answers no ciphertext, the error is EncodingFailed. This is where random bytes are as
  -- many as asked for, and AES-GCM opens what it sealed with the same key and nonce.
  pub decode_message-encode_message :
      (msg : List ℕ) (w : W) → IsDecodable msg (encode_message aead secret msg w).0
  unfolding encode_message new_sequence fill_result
  decode_message-encode_message msg w = encoded (aead.fill nonce_len w) msg (laws.fills nonce_len w)
