-- ===== src/Argon2/Base64/Encode.antt =====
-- `to_base64` against a definition by groups of three bytes.
use security_core.Common.{
  ℕ, suc, ◌+◌, ◌*◌, ◌/◌, ◌%◌, ◌^◌, ◌≤◌, ◌<◌, ◌≡◌, refl, ap₂, ◌⊎◌, none, some, [], ◌∷◌, Bytes,
  length, AreBytes, arith, bit_and, u8,
}
use security_core.Common.Bits.{bit_and-mask}
use security_core.Argon2.Base64.{sextet, flush, encode_loop, b64len, to_base64, b64_byte_to_char}
use security_core.Argon2.Base64.Chars.{symbol, b64_byte_to_char-symbol, symbol_inverse}

-- RFC 4648 without padding: three bytes are four characters, a last byte is two and two last
-- bytes are three.
unfoldable pub base64 : Bytes → Bytes
base64 [] = []
base64 (a ∷ []) = symbol (a / 4) ∷ symbol (a % 4 * 16) ∷ []
base64 (a ∷ b ∷ []) = symbol (a / 4) ∷ symbol (a % 4 * 16 + b / 16) ∷ symbol (b % 16 * 4) ∷ []
base64 (a ∷ b ∷ c ∷ src) =
    symbol (a / 4)
    ∷ symbol (a % 4 * 16 + b / 16)
    ∷ symbol (b % 16 * 4 + c / 64)
    ∷ symbol (c % 64)
    ∷ base64 src

low_six-symbol : (x v : ℕ) → v < 64 → x % 64 ≡ v → u8 (b64_byte_to_char (bit_and x 0x3f)) ≡ symbol v
low_six-symbol x v h e =
    rw (bit_and-mask 6 x, e, b64_byte_to_char-symbol v h) (omega (arith, (symbol_inverse v h).1))

sextet-symbol : (acc n v : ℕ) → v < 64 → acc / 2 ^ n % 64 ≡ v → sextet acc n ≡ symbol v
sextet-symbol acc n v h e = low_six-symbol (acc / 2 ^ n) v h e

abbrev pub push8 : ℕ → ℕ → ℕ
push8 acc b = (acc * 2 ^ 8 % 2 ^ 32 + b) % 2 ^ 32

infixr 66 ◌∷∷◌
◌∷∷◌ : {x y : ℕ} {xs ys : Bytes} → x ≡ y → xs ≡ ys → x ∷ xs ≡ y ∷ ys
p ∷∷ q = ap₂ ◌∷◌ p q

module _ (a b c acc : ℕ) (ha : a < 256) (hb : b < 256) (hc : c < 256) where
  -- Three bytes from an accumulator with no pending bits, whatever stands in it.
  encode_loop_group :
      (src : Bytes)
      → encode_loop (a ∷ b ∷ c ∷ src) acc 0
        ≡ symbol (a / 4)
          ∷ symbol (a % 4 * 16 + b / 16)
          ∷ symbol (b % 16 * 4 + c / 64)
          ∷ symbol (c % 64)
          ∷ encode_loop src (push8 (push8 (push8 acc a) b) c) 0
  unfolding encode_loop flush
  encode_loop_group src =
      sextet-symbol (push8 acc a) 2 (a / 4) (omega arith) (omega arith)
      ∷∷ sextet-symbol (push8 (push8 acc a) b) 4 (a % 4 * 16 + b / 16) (omega arith) (omega arith)
      ∷∷ sextet-symbol (push8 (push8 (push8 acc a) b) c) 6 (b % 16 * 4 + c / 64) (omega arith)
          (omega arith)
      ∷∷ sextet-symbol (push8 (push8 (push8 acc a) b) c) 0 (c % 64) (omega arith) (omega arith)
      ∷∷ refl

  encode_loop_two :
      encode_loop (a ∷ b ∷ []) acc 0
      ≡ symbol (a / 4) ∷ symbol (a % 4 * 16 + b / 16) ∷ symbol (b % 16 * 4) ∷ []
  unfolding encode_loop flush
  encode_loop_two =
      sextet-symbol (push8 acc a) 2 (a / 4) (omega arith) (omega arith)
      ∷∷ sextet-symbol (push8 (push8 acc a) b) 4 (a % 4 * 16 + b / 16) (omega arith) (omega arith)
      ∷∷ low_six-symbol (push8 (push8 acc a) b * 2 ^ 2 % 2 ^ 32) (b % 16 * 4) (omega arith)
          (omega arith)
      ∷∷ refl

  encode_loop_one : encode_loop (a ∷ []) acc 0 ≡ symbol (a / 4) ∷ symbol (a % 4 * 16) ∷ []
  unfolding encode_loop flush
  encode_loop_one =
      sextet-symbol (push8 acc a) 2 (a / 4) (omega arith) (omega arith)
      ∷∷ low_six-symbol (push8 acc a * 2 ^ 4 % 2 ^ 32) (a % 4 * 16) (omega arith) (omega arith)
      ∷∷ refl

pub encode_loop-base64 : (src : Bytes) (acc : ℕ) → AreBytes src → encode_loop src acc 0 ≡ base64 src
unfolding base64
encode_loop-base64 [] acc h = unfold encode_loop in refl
encode_loop-base64 (a ∷ []) acc h = encode_loop_one a 0 0 acc h.0 (omega arith) (omega arith)
encode_loop-base64 (a ∷ b ∷ []) acc h = encode_loop_two a b 0 acc h.0 h.1.0 (omega arith)
encode_loop-base64 (a ∷ b ∷ c ∷ src) acc h =
    rw (encode_loop_group a b c acc h.0 h.1.0 h.1.1.0 src)
      (refl ∷∷ refl ∷∷ refl ∷∷ refl ∷∷ encode_loop-base64 src _ h.1.1.1)

b64len_three : (n : ℕ) → b64len (suc (suc (suc n))) ≡ suc (suc (suc (suc (b64len n))))
unfolding b64len
b64len_three n = ground arith

pub length-base64 : (src : Bytes) → length (base64 src) ≡ b64len (length src)
unfolding base64
length-base64 [] = unfold b64len in refl
length-base64 (a ∷ []) = unfold b64len in refl
length-base64 (a ∷ b ∷ []) = unfold b64len in refl
length-base64 (a ∷ b ∷ c ∷ src) = rw (b64len_three (length src), length-base64 src)

-- `to_base64` writes the RFC 4648 text without padding and returns its length, which `b64len`
-- predicts, if the buffer has room for the text and its zero byte; otherwise it fails.
pub to_base64-base64 :
    (dst_len : ℕ) (src : Bytes)
    → AreBytes src
    → ((length (base64 src) < dst_len)
        × (to_base64 dst_len src ≡ some (base64 src, b64len (length src))))
      ⊎ ((dst_len ≤ length (base64 src)) × (to_base64 dst_len src ≡ none))
unfolding to_base64
to_base64-base64 dst_len src h = ground (arith, length-base64 src, encode_loop-base64 src 0 h)

pub length-base64_ge : (x : Bytes) → length x ≤ length (base64 x)
unfolding base64
length-base64_ge [] = omega arith
length-base64_ge (a ∷ []) = omega arith
length-base64_ge (a ∷ b ∷ []) = omega arith
length-base64_ge (a ∷ b ∷ c ∷ src) = omega (arith, length-base64_ge src)
