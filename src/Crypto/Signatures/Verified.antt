-- ===== src/Crypto/Signatures/Verified.antt =====
-- Which signatures are accepted.
use mercado.Prelude.{[], ◌∷◌}
use mercado.Prelude.{List, ℕ, ◌≡◌, true, ◌↔◌, ap, Bool-cases, inl, arith, inr}
use mercado.Crypto.Signatures.{
  Digests, Signs, bytes_eq, HmacAlgorithm, List, Verifies, ℕ, true, hmac_sha1_sign_message,
  sha512_verify_signature, hmac_sha1_verify_signature, sha512_generate_digest, from_utf8,
  hmac_sha256_sign_message, hmac_sha256_verify_signature, hmac_sha512_sign_message,
  hmac_sha512_verify_signature, sha256_generate_digest, sha256_verify_signature,
  md5_generate_digest, md5_verify_signature, ◌∷◌,
}
use mercado.Prelude.Results.{Result, ok, ok-injective}
use mercado.Crypto.Aes.{CryptoError}

pub bytes_eq_iff : (xs bs : List ℕ) → (bytes_eq xs bs ≡ true) ↔ (xs ≡ bs)
unfolding bytes_eq
bytes_eq_iff [] [] = ground arith
bytes_eq_iff [] (b ∷ bs) = ground arith
bytes_eq_iff (a ∷ xs) [] = ground arith
bytes_eq_iff (a ∷ xs) (b ∷ bs) = ground (arith, bytes_eq_iff xs bs)

-- A signature is accepted exactly if it is the one that the algorithm makes.
abbrev pub AcceptsOnly : (sign : Signs) (verify : Verifies) → Type 0
AcceptsOnly sign verify =
    (secret msg signature : List ℕ)
    → (verify secret signature msg ≡ ok true) ↔ (sign secret msg ≡ ok signature)

module _ (digests : Digests)
    (hmac_laws : (a : HmacAlgorithm) (key msg signature : List ℕ)
      → (digests.hmac_verify a key msg signature ≡ true)
        ↔ (digests.hmac_sign a key msg ≡ signature)) where
  ok_iff :
      {A B : Type 0} {a b : A} {c d : B}
      → ((a ≡ b) ↔ (c ≡ d))
      → (◌≡◌ {A = Result CryptoError A} (ok a) (ok b))
        ↔ (◌≡◌ {A = Result CryptoError B} (ok c) (ok d))
  ok_iff h = ((λ e. ap ok (h.0 (ok-injective e))), λ e. ap ok (h.1 (ok-injective e)))

  sha512_iff :
      (secret msg signature : List ℕ)
      → (sha512_verify_signature digests secret signature msg ≡ ok true)
        ↔ ((digests.is_utf8 msg ≡ true) × (digests.hex_encode (digests.sha512 msg) ≡ signature))
  unfolding sha512_verify_signature sha512_generate_digest from_utf8
  sha512_iff secret msg signature = elim (Bool-cases (digests.is_utf8 msg)) [
    | inl utf8 ↦ ground (arith, bytes_eq_iff (digests.hex_encode (digests.sha512 msg)) signature)
    | inr not_utf8 ↦ ground arith
  ]

  -- HMAC with SHA-1, SHA-256 and SHA-512 accepts a signature exactly if it is the one that signing
  -- makes; SHA-256 and MD5 accept exactly the digest, and SHA-512 exactly the text of the digest in
  -- hexadecimal, of a message that is UTF-8. This is where ring verifies exactly what it signs.
  pub verify_signature-accepts :
      AcceptsOnly (hmac_sha1_sign_message digests) (hmac_sha1_verify_signature digests)
      × AcceptsOnly (hmac_sha256_sign_message digests) (hmac_sha256_verify_signature digests)
      × AcceptsOnly (hmac_sha512_sign_message digests) (hmac_sha512_verify_signature digests)
      × AcceptsOnly (λ _. sha256_generate_digest digests) (sha256_verify_signature digests)
      × AcceptsOnly (λ _. md5_generate_digest digests) (md5_verify_signature digests)
      × ((secret msg signature : List ℕ)
          → (sha512_verify_signature digests secret signature msg ≡ ok true) ↔ (
              (digests.is_utf8 msg ≡ true) × (digests.hex_encode (digests.sha512 msg) ≡ signature)))
  unfolding hmac_sha1_sign_message hmac_sha1_verify_signature hmac_sha256_sign_message
      hmac_sha256_verify_signature hmac_sha512_sign_message hmac_sha512_verify_signature
      sha256_generate_digest sha256_verify_signature md5_generate_digest md5_verify_signature
  verify_signature-accepts = (
    (λ secret msg signature. ok_iff (hmac_laws _ secret msg signature)),
    (λ secret msg signature. ok_iff (hmac_laws _ secret msg signature)),
    (λ secret msg signature. ok_iff (hmac_laws _ secret msg signature)),
    (λ secret msg signature. ok_iff (bytes_eq_iff (digests.sha256 msg) signature)),
    (λ secret msg signature. ok_iff (bytes_eq_iff (digests.md5 msg) signature)),
    (λ secret msg signature. sha512_iff secret msg signature),
  )
