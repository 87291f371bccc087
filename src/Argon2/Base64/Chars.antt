-- ===== src/Argon2/Base64/Chars.antt =====
-- The conversion of one Base64 character against the alphabet of RFC 4648.
use security_core.Common.{
  ℕ, ◌≤◌, ◌<◌, ◌≡◌, refl, ◌⊎◌, true, ◌&&◌, ◌||◌, Bytes, codes, get_or, ==_iff, arith, ◌==◌, ltb,
}
use security_core.Common.Bits.{holds_below, holds_below_at}
use security_core.Argon2.Base64.{b64_byte_to_char, char_to_int, b64_char_to_byte}

abbrev pub alphabet : Bytes
alphabet = codes "ABCDEFGHIJKLMNOPQRSTUVWXYZabcdefghijklmnopqrstuvwxyz0123456789+/"

unfoldable pub symbol : ℕ → ℕ
symbol v = get_or alphabet v 0

to_char_table : holds_below 64 (λ v. b64_byte_to_char v == symbol v) ≡ true
unfolding holds_below b64_byte_to_char symbol
to_char_table = refl

-- The six-bit values are spelled by the alphabet.
pub b64_byte_to_char-symbol : (v : ℕ) → v < 64 → b64_byte_to_char v ≡ symbol v
b64_byte_to_char-symbol v h = (==_iff _ _).0 (holds_below_at 64 _ to_char_table v h)

to_byte_table :
    holds_below 64 (λ v. (b64_char_to_byte (char_to_int (symbol v)) == v) && ltb (symbol v) 128)
    ≡ true
unfolding holds_below b64_char_to_byte char_to_int symbol
to_byte_table = refl

pub symbol_inverse :
    (v : ℕ) → v < 64 → (b64_char_to_byte (char_to_int (symbol v)) ≡ v) × (symbol v < 128)
symbol_inverse v h = let both = holds_below_at 64 _ to_byte_table v h in ground arith

ascii_table :
    holds_below 128 (λ c.
      let d = b64_char_to_byte (char_to_int c) in
      (d == 0xff) || (ltb d 64 && (b64_byte_to_char d == c)))
    ≡ true
unfolding holds_below b64_char_to_byte char_to_int b64_byte_to_char
ascii_table = refl

-- On the ASCII characters `b64_char_to_byte` inverts `b64_byte_to_char`, and answers 0xff on all
-- that are not in the alphabet.
b64_char_to_byte_ascii :
    (c : ℕ)
    → c < 128
    → (b64_char_to_byte (char_to_int c) ≡ 0xff)
      ⊎ ((b64_char_to_byte (char_to_int c) < 64)
          × (b64_byte_to_char (b64_char_to_byte (char_to_int c)) ≡ c))
b64_char_to_byte_ascii c h = let row = holds_below_at 128 _ ascii_table c h in ground arith

high_table : holds_below 256 (λ c. ltb c 128 || (b64_char_to_byte (char_to_int c) == 63)) ≡ true
unfolding holds_below b64_char_to_byte char_to_int
high_table = refl

-- A byte from 128 on, which is no Base64 character, is read as the value 63 of `/`: the
-- comparison EQ is not made for negative characters.
pub b64_char_to_byte_high : (c : ℕ) → 128 ≤ c → c < 256 → b64_char_to_byte (char_to_int c) ≡ 63
b64_char_to_byte_high c h lt = let row = holds_below_at 256 _ high_table c lt in ground arith

-- The separator of a hash string ends a Base64 part.
pub dollar_is_no_base64 : b64_char_to_byte (char_to_int b'$') ≡ 0xff
unfolding b64_char_to_byte char_to_int
dollar_is_no_base64 = refl
