-- ===== src/Crypto/Nonces/Laws.antt =====
-- The nonce that is made from bytes is these bytes.
use mercado.Prelude.{
  List, ℕ, All, length, suc, ◌++◌, ◌<◌, [], ◌*◌, ◌+◌, ◌≡◌, arith, sym, ◌%◌, ◌/◌, ◌∷◌, ap, refl,
  drop, ◌∙◌,
}
use mercado.Crypto.Nonces.{
  to_be_bytes, from_be_bytes, current, from_bytes, List, ℕ, nonce_len, suc, [], ◌∷◌, drop,
}

-- Bytes, as many as `k`.
abbrev pub IsBytes : (k : ℕ) → List ℕ → Type 0
IsBytes k bytes = (length bytes ≡ k) × All (λ b. b < 256) bytes

append_one : (xs : List ℕ) (b : ℕ) (bs : List ℕ) → (xs ++ b ∷ []) ++ bs ≡ xs ++ b ∷ bs
append_one [] b bs = refl
append_one (x ∷ xs) b bs = ap (λ l. x ∷ l) (append_one xs b bs)

byte_above : (acc b : ℕ) → b < 256 → (acc * 256 + b) / 256 ≡ acc
byte_above acc b small = omega arith

byte_of : (acc b : ℕ) → b < 256 → (acc * 256 + b) % 256 ≡ b
byte_of acc b small = omega arith

zero_add : (n : ℕ) → 0 + n ≡ n
zero_add n = omega arith

add_suc : (m n : ℕ) → suc m + n ≡ m + suc n
add_suc m n = omega arith

append-nil : {A : Type 0} (xs : List A) → xs ++ [] ≡ xs
append-nil [] = refl
append-nil (x ∷ xs) = ap (λ l. x ∷ l) (append-nil xs)

to_be_bytes_step :
    (k acc b : ℕ) → b < 256 → to_be_bytes (suc k) (acc * 256 + b) ≡ to_be_bytes k acc ++ b ∷ []
unfolding to_be_bytes
to_be_bytes_step k acc b small = rw (byte_above acc b small, byte_of acc b small) refl

to_be_bytes-from_be_bytes :
    (k acc : ℕ) (bs : List ℕ)
    → All (λ b. b < 256) bs
    → to_be_bytes (length bs + k) (from_be_bytes acc bs) ≡ to_be_bytes k acc ++ bs
unfolding from_be_bytes
to_be_bytes-from_be_bytes k acc [] small =
    ap (λ n. to_be_bytes n acc) (zero_add k) ∙ sym (append-nil (to_be_bytes k acc))
to_be_bytes-from_be_bytes k acc (b ∷ bs) (here, small) =
    ap (λ n. to_be_bytes n (from_be_bytes (acc * 256 + b) bs)) (add_suc (length bs) k)
    ∙ to_be_bytes-from_be_bytes (suc k) (acc * 256 + b) bs small
    ∙ ap (λ l. l ++ bs) (to_be_bytes_step k acc b here)
    ∙ append_one (to_be_bytes k acc) b bs

sixteen : (n : ℕ) → n ≡ 12 → 16 ≡ suc (suc (suc (suc n))) + 0
sixteen n e = omega (arith, e)

sixteen_bytes :
    (bytes : List ℕ)
    → length bytes ≡ 12
    → All (λ b. b < 256) bytes
    → to_be_bytes 16 (from_be_bytes 0 (0 ∷ 0 ∷ 0 ∷ 0 ∷ bytes)) ≡ 0 ∷ 0 ∷ 0 ∷ 0 ∷ bytes
unfolding to_be_bytes
sixteen_bytes bytes twelve small =
    ap (λ n. to_be_bytes n (from_be_bytes 0 (0 ∷ 0 ∷ 0 ∷ 0 ∷ bytes)))
      (sixteen (length bytes) twelve)
    ∙ to_be_bytes-from_be_bytes 0 0 (0 ∷ 0 ∷ 0 ∷ 0 ∷ bytes)
        (omega arith, (omega arith, (omega arith, (omega arith, small))))

pub current-from_bytes :
    (bytes : List ℕ) → IsBytes nonce_len bytes → current (from_bytes bytes) ≡ bytes
unfolding current from_bytes to_be_bytes
current-from_bytes bytes (twelve, small) = ap (drop 4) (sixteen_bytes bytes twelve small)
