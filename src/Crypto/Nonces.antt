-- ===== src/Crypto/Nonces.antt =====
-- `NonceSequence` of crates/common_utils/src/crypto.rs: a 128-bit number whose last 96 bits are the nonce.
pub mod Laws
use mercado.Prelude.{List, ℕ, [], drop, ◌+◌, ◌∷◌, suc, ◌%◌, ◌*◌, ◌/◌, ◌^◌, ◌++◌, zero}

-- `ring::aead::NONCE_LEN` and `SEQUENCE_NUMBER_START_INDEX`
abbrev pub nonce_len : ℕ
nonce_len = 12

abbrev pub sequence_number_start_index : ℕ
sequence_number_start_index = 4

-- The last `k` bytes of a number, the most significant first: `u128::to_be_bytes` for 16.
unfoldable pub to_be_bytes : (k : ℕ) → ℕ → List ℕ
to_be_bytes zero n = []
to_be_bytes (suc k) n = to_be_bytes k (n / 256) ++ (n % 256) ∷ []

-- `u128::from_be_bytes`, after the bytes that make `acc`.
unfoldable pub from_be_bytes : (acc : ℕ) → List ℕ → ℕ
from_be_bytes acc [] = acc
from_be_bytes acc (b ∷ bs) = from_be_bytes (acc * 256 + b) bs

unfoldable pub current : (sequence : ℕ) → List ℕ
current sequence = drop sequence_number_start_index (to_be_bytes 16 sequence)

unfoldable pub from_bytes : List ℕ → ℕ
from_bytes bytes = from_be_bytes 0 (0 ∷ 0 ∷ 0 ∷ 0 ∷ bytes)

-- The nonce that is used next, and the sequence after it: `wrapping_add` on u128.
unfoldable pub advance : (sequence : ℕ) → List ℕ × ℕ
unfolding current
advance sequence = (current sequence, (sequence + 1) % 2 ^ 128)
