-- ===== src/Tests/Cryptos.antt =====
-- Toy ciphers, to run the encryption and to meet the laws of the theorems.
use mathlib.Core.Path.{subst}
use mercado.Prelude.{
  [], List, some, ℕ, ◌++◌, ◌∷◌, All, Option, length, suc, true, ◌≡◌, arith, if◌then◌else◌, none,
  refl, sym, zero, ◌<◌, ◌==◌, ◌↔◌,
}
use mercado.Prelude.Results.{ok}
use mercado.Crypto.Aes.{Aead, encode_message, new_sequence}
use mercado.Crypto.Aes.RoundTrip.{AeadLaws, IsDecodable, decode_message-encode_message}
use mercado.Crypto.Nonces.{current, from_bytes, advance, to_be_bytes, from_be_bytes}
use mercado.Crypto.Nonces.Laws.{IsBytes}
use mercado.Crypto.Signatures.{
  Digests, hmac_sha256_sign_message, hmac_sha256_verify_signature, bytes_eq, hmac_sha1_sign_message,
  hmac_sha1_verify_signature, hmac_sha512_sign_message, hmac_sha512_verify_signature,
  sha256_generate_digest, sha256_verify_signature, md5_generate_digest, md5_verify_signature,
  sha512_verify_signature,
}
use mercado.Crypto.Signatures.Verified.{AcceptsOnly, verify_signature-accepts, bytes_eq_iff}

abbrev ones : ℕ → List ℕ
ones zero = []
ones (suc k) = 1 ∷ ones k

length-ones : (k : ℕ) → length (ones k) ≡ k
length-ones zero = refl
length-ones (suc k) = omega (arith, length-ones k)

ones_small : (k : ℕ) → All (λ b. b < 256) (ones k)
ones_small zero = tt
ones_small (suc k) = (omega arith, ones_small k)

abbrev tail_of : List ℕ → Option (List ℕ)
tail_of [] = none
tail_of (x ∷ xs) = some xs

some-injective : {A : Type 0} {a b : A} → some a ≡ some b → a ≡ b
some-injective e = cc

opened : (key : ℕ) (msg c : List ℕ) → some (key ∷ msg) ≡ some c → tail_of c ≡ some msg
opened key msg c e = rw (sym (some-injective e)) refl

-- A seal is a byte before the message, and the world counts the nonces.
abbrev aead : Aead ℕ ℕ
aead = record {
  fill = λ count w. (some (ones count), suc w);
  unbound_key = λ secret. if length secret == 2 then some 32 else none;
  seal = λ key nonce msg. some (key ∷ msg);
  open_within = λ key nonce c. tail_of c;
}

ones_fill :
    (count w : ℕ) (bytes : List ℕ) → (aead.fill count w).0 ≡ some bytes → IsBytes count bytes
ones_fill count w bytes e =
    subst (IsBytes count) (some-injective e) (length-ones count, ones_small count)

abbrev aead_laws : AeadLaws aead
aead_laws = record { fills = ones_fill; opens = λ key nonce msg c e. opened key msg c e }

encoded :
    (encode_message aead (5 ∷ 6 ∷ []) (7 ∷ 8 ∷ []) 0).0
    ≡ ok (1 ∷ 1 ∷ 1 ∷ 1 ∷ 1 ∷ 1 ∷ 1 ∷ 1 ∷ 1 ∷ 1 ∷ 1 ∷ 1 ∷ 32 ∷ 7 ∷ 8 ∷ [])
unfolding encode_message new_sequence current from_bytes advance to_be_bytes from_be_bytes
encoded = refl

decode_message-encode_message_example :
    IsDecodable aead aead_laws
      (5 ∷ 6 ∷ [])
      (7 ∷ 8 ∷ [])
      (encode_message aead (5 ∷ 6 ∷ []) (7 ∷ 8 ∷ []) 0).0
decode_message-encode_message_example =
    decode_message-encode_message aead aead_laws (5 ∷ 6 ∷ []) (7 ∷ 8 ∷ []) 0

-- A signature is the secret and then the message.
abbrev digests : Digests
digests = record {
  hmac_sign = λ a key msg. key ++ msg;
  hmac_verify = λ a key msg signature. bytes_eq (key ++ msg) signature;
  sha512 = λ msg. 5 ∷ msg;
  sha256 = λ msg. 2 ∷ msg;
  md5 = λ msg. msg;
  hex_encode = λ bytes. bytes ++ bytes;
  is_utf8 = λ bytes. true;
}

verify_signature-accepts_example :
    AcceptsOnly (hmac_sha1_sign_message digests) (hmac_sha1_verify_signature digests)
    × AcceptsOnly (hmac_sha256_sign_message digests) (hmac_sha256_verify_signature digests)
    × AcceptsOnly (hmac_sha512_sign_message digests) (hmac_sha512_verify_signature digests)
    × AcceptsOnly (λ _. sha256_generate_digest digests) (sha256_verify_signature digests)
    × AcceptsOnly (λ _. md5_generate_digest digests) (md5_verify_signature digests)
    × ((secret msg signature : List ℕ)
        → (sha512_verify_signature digests secret signature msg ≡ ok true)
          ↔ ((digests.is_utf8 msg ≡ true) × (digests.hex_encode (digests.sha512 msg) ≡ signature)))
verify_signature-accepts_example =
    verify_signature-accepts digests (λ a key msg signature. bytes_eq_iff (key ++ msg) signature)
