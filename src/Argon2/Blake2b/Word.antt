-- ===== src/Argon2/Blake2b/Word.antt =====
-- Loads, stores and the rotation of 64-bit words, in little-endian order (blake2-impl.h).
use security_core.Common.{
  ℕ, ◌+◌, ◌-◌, ◌*◌, ◌/◌, ◌%◌, ◌^◌, ◌<◌, ◌≡◌, bit_or, [], ◌∷◌, Bytes, get_or, u64, ◌<<<◌, ◌>>>◌,
  arith,
}

unfoldable pub store32 : ℕ → Bytes
store32 w = w % 256 ∷ w / 2 ^ 8 % 256 ∷ w / 2 ^ 16 % 256 ∷ w / 2 ^ 24 % 256 ∷ []

unfoldable pub store64 : ℕ → Bytes
store64 w =
    w % 256
    ∷ w / 2 ^ 8 % 256
    ∷ w / 2 ^ 16 % 256
    ∷ w / 2 ^ 24 % 256
    ∷ w / 2 ^ 32 % 256
    ∷ w / 2 ^ 40 % 256
    ∷ w / 2 ^ 48 % 256
    ∷ w / 2 ^ 56 % 256
    ∷ []

-- The eight bytes from an offset on; the bytes do not overlap in the word.
unfoldable pub load64 : Bytes → ℕ → ℕ
load64 src i =
    get_or src i 0
    + get_or src (i + 1) 0 * 2 ^ 8
    + get_or src (i + 2) 0 * 2 ^ 16
    + get_or src (i + 3) 0 * 2 ^ 24
    + get_or src (i + 4) 0 * 2 ^ 32
    + get_or src (i + 5) 0 * 2 ^ 40
    + get_or src (i + 6) 0 * 2 ^ 48
    + get_or src (i + 7) 0 * 2 ^ 56

unfoldable pub rotr64 : ℕ → ℕ → ℕ
rotr64 w c = bit_or (w >>> c) (u64 (w <<< (64 - c)))

-- A 64-bit word that is stored in little-endian order is loaded again.
pub load64-store64 : (w : ℕ) → w < 2 ^ 64 → load64 (store64 w) 0 ≡ w
unfolding load64 store64
load64-store64 w h = omega arith
