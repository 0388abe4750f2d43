-- ===== src/Crypto/Signatures.antt =====
-- The signatures and digests of crates/common_utils/src/crypto.rs, with the comparison of byte slices.
pub mod Verified
use mercado.Prelude.{List, [], true, ℕ, Bool, if◌then◌else◌, ◌∷◌, false, ◌==◌, ◌&&◌}
use mercado.Prelude.Results.{Result, ok, err, ◌>>=◌, map_err}
use mercado.Crypto.Aes.{CryptoError, encoding_failed, signature_verification_failed}

pub data HmacAlgorithm : Type 0 where
  hmac_sha1_for_legacy_use_only hmac_sha256 hmac_sha512 : HmacAlgorithm

-- ring, md5 and hex, and whether bytes are UTF-8.
pub record Digests : Type 0 where
  pub hmac_sign : HmacAlgorithm → (key msg : List ℕ) → List ℕ
  pub hmac_verify : HmacAlgorithm → (key msg signature : List ℕ) → Bool
  pub sha512 : List ℕ → List ℕ
  pub sha256 : List ℕ → List ℕ
  pub md5 : List ℕ → List ℕ
  pub hex_encode : List ℕ → List ℕ
  pub is_utf8 : List ℕ → Bool

unfoldable pub bytes_eq : List ℕ → List ℕ → Bool
bytes_eq [] [] = true
bytes_eq [] (b ∷ bs) = false
bytes_eq (a ∷ xs) [] = false
bytes_eq (a ∷ xs) (b ∷ bs) = a == b && bytes_eq xs bs

abbrev pub Signs : Type 0
Signs = (secret msg : List ℕ) → Result CryptoError (List ℕ)

abbrev pub Verifies : Type 0
Verifies = (secret signature msg : List ℕ) → Result CryptoError Bool

unfoldable pub no_algorithm_sign_message : Signs
no_algorithm_sign_message secret msg = ok []

unfoldable pub no_algorithm_verify_signature : Verifies
no_algorithm_verify_signature secret signature msg = ok true

unfoldable pub no_algorithm_encode_message : Signs
no_algorithm_encode_message secret msg = ok msg

unfoldable pub no_algorithm_decode_message : Signs
no_algorithm_decode_message secret msg = ok msg

module _ (digests : Digests) where
  unfoldable pub hmac_sha1_sign_message : Signs
  hmac_sha1_sign_message secret msg =
      ok (digests.hmac_sign hmac_sha1_for_legacy_use_only secret msg)

  unfoldable pub hmac_sha1_verify_signature : Verifies
  hmac_sha1_verify_signature secret signature msg =
      ok (digests.hmac_verify hmac_sha1_for_legacy_use_only secret msg signature)

  unfoldable pub hmac_sha256_sign_message : Signs
  hmac_sha256_sign_message secret msg = ok (digests.hmac_sign hmac_sha256 secret msg)

  unfoldable pub hmac_sha256_verify_signature : Verifies
  hmac_sha256_verify_signature secret signature msg =
      ok (digests.hmac_verify hmac_sha256 secret msg signature)

  unfoldable pub hmac_sha512_sign_message : Signs
  hmac_sha512_sign_message secret msg = ok (digests.hmac_sign hmac_sha512 secret msg)

  unfoldable pub hmac_sha512_verify_signature : Verifies
  hmac_sha512_verify_signature secret signature msg =
      ok (digests.hmac_verify hmac_sha512 secret msg signature)

  unfoldable pub sha512_generate_digest : List ℕ → Result CryptoError (List ℕ)
  sha512_generate_digest message = ok (digests.sha512 message)

  unfoldable pub sha256_generate_digest : List ℕ → Result CryptoError (List ℕ)
  sha256_generate_digest message = ok (digests.sha256 message)

  unfoldable pub md5_generate_digest : List ℕ → Result CryptoError (List ℕ)
  md5_generate_digest message = ok (digests.md5 message)

  -- `std::str::from_utf8`, whose text has the same bytes.
  from_utf8 : List ℕ → Result CryptoError (List ℕ)
  from_utf8 msg = if digests.is_utf8 msg then ok msg else err encoding_failed

  unfoldable pub sha512_verify_signature : Verifies
  unfolding sha512_generate_digest from_utf8
  sha512_verify_signature secret signature msg = do
    msg_str ← from_utf8 msg
    digest ← map_err (λ _. signature_verification_failed) (sha512_generate_digest msg_str)
    let hashed_digest = digests.hex_encode digest
    ok (bytes_eq hashed_digest signature)

  unfoldable pub sha256_verify_signature : Verifies
  unfolding sha256_generate_digest
  sha256_verify_signature secret signature msg = do
    hashed_digest ← map_err (λ _. signature_verification_failed) (sha256_generate_digest msg)
    ok (bytes_eq hashed_digest signature)

  unfoldable pub md5_verify_signature : Verifies
  unfolding md5_generate_digest
  md5_verify_signature secret signature msg = do
    hashed_digest ← map_err (λ _. signature_verification_failed) (md5_generate_digest msg)
    ok (bytes_eq hashed_digest signature)
