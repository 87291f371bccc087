-- ===== src/Argon2/Base64/Decode.antt =====
-- `from_base64` of Sources/CArgon2/encoding.c on a text by groups of four characters.
use security_core.Common.{
  ℕ, ◌+◌, ◌-◌, ◌*◌, ◌/◌, ◌%◌, ◌^◌, ◌≤◌, ◌<◌, ◌≡◌, refl, ap, ◌∙◌, inl, inr, none, some, [], ◌∷◌,
  ◌++◌, Bytes, length, AreBytes, arith, lt_or_le,
}
use security_core.Common.Bits.{bit_and-mask}
use security_core.Argon2.Base64.{
  b64_char_to_byte, char_to_int, store, finish, decode_loop, from_base64,
}
use security_core.Argon2.Base64.Chars.{symbol, symbol_inverse}
use security_core.Argon2.Base64.Encode.{base64}

-- The input ends, or goes on with a character that is not read as Base64.
abbrev pub Stops : Bytes → Type 0
Stops [] = Unit {0}
Stops (c ∷ rest) = b64_char_to_byte (char_to_int c) ≡ 0xff

abbrev push6 : ℕ → ℕ → ℕ
push6 acc d = (acc * 2 ^ 6 % 2 ^ 32 + d) % 2 ^ 32

module _ (dst_len : ℕ) where
  decode_loop-finish :
      (rest : Bytes) (acc n len : ℕ)
      → Stops rest
      → decode_loop dst_len rest acc n len ≡ finish acc n rest
  unfolding decode_loop
  decode_loop-finish [] acc n len h = refl
  decode_loop-finish (c ∷ rest) acc n len h = rw h

  module _ (v acc len : ℕ) (s : Bytes) (hv : v < 64) where
    -- The first character of a group leaves six bits.
    first_char :
        decode_loop dst_len (symbol v ∷ s) acc 0 len ≡ decode_loop dst_len s (push6 acc v) 6 len
    unfolding decode_loop
    first_char = rw (symbol_inverse v hv).0 (ground arith)

    -- With `n + 2` bits pending a character completes a byte.
    byte_char :
        (n b : ℕ)
        → len < dst_len
        → push6 acc v / 2 ^ n % 256 ≡ b
        → decode_loop dst_len (symbol v ∷ s) acc (n + 2) len
          ≡ store b (decode_loop dst_len s (push6 acc v) n (len + 1))
    unfolding decode_loop
    byte_char n b room e =
        let low : n + 2 + 6 - 8 ≡ n = omega arith in
        rw ((symbol_inverse v hv).0, low, bit_and-mask 8 (push6 acc v / 2 ^ n), e) (ground arith)

    -- A byte that finds the buffer full ends the decoding.
    full_char : (n : ℕ) → dst_len ≤ len → decode_loop dst_len (symbol v ∷ s) acc (n + 2) len ≡ none
    unfolding decode_loop
    full_char n full =
        let low : n + 2 + 6 - 8 ≡ n = omega arith in
        rw ((symbol_inverse v hv).0, low) (ground arith)

finish_zero :
    (acc n : ℕ) (rest : Bytes) → n ≤ 4 → acc % 2 ^ n ≡ 0 → finish acc n rest ≡ some ([], rest)
unfolding finish
finish_zero acc n rest h e = rw (bit_and-mask n acc, e) (ground arith)

module _ (dst_len a b acc len : ℕ) (ha : a < 256) (hb : b < 256) where
  -- The first two characters of a group.
  front_two :
      (s : Bytes)
      → len < dst_len
      → decode_loop dst_len (symbol (a / 4) ∷ symbol (a % 4 * 16 + b / 16) ∷ s) acc 0 len
        ≡ store a
            (decode_loop dst_len s (push6 (push6 acc (a / 4)) (a % 4 * 16 + b / 16)) 4 (len + 1))
  front_two s room =
      first_char dst_len (a / 4) acc len _ (omega arith)
      ∙ byte_char dst_len (a % 4 * 16 + b / 16) (push6 acc (a / 4)) len s (omega arith) 4 a room
          (omega arith)

  -- After three characters, with the upper part `d` of a third byte still pending.
  front_three :
      (d : ℕ) (s : Bytes)
      → d < 4
      → len + 1 < dst_len
      → decode_loop dst_len
          (symbol (a / 4) ∷ symbol (a % 4 * 16 + b / 16) ∷ symbol (b % 16 * 4 + d) ∷ s)
          acc
          0
          len
        ≡ store a (
            store b (
              decode_loop dst_len s
                (push6 (push6 (push6 acc (a / 4)) (a % 4 * 16 + b / 16)) (b % 16 * 4 + d))
                2
                (len + 1 + 1)))
  front_three d s hd room =
      front_two _ (omega arith)
      ∙ ap (store a) (
          byte_char dst_len (b % 16 * 4 + d) (push6 (push6 acc (a / 4)) (a % 4 * 16 + b / 16))
            (len + 1) s (omega arith) 2 b room (omega arith))

decode_loop-base64 :
    (dst_len : ℕ) (src rest : Bytes) (acc len : ℕ)
    → AreBytes src
    → Stops rest
    → len + length src ≤ dst_len
    → decode_loop dst_len (base64 src ++ rest) acc 0 len ≡ some (src, rest)
unfolding base64
decode_loop-base64 dst_len [] rest acc len h stops room =
    decode_loop-finish dst_len rest acc 0 len stops
    ∙ finish_zero acc 0 rest (omega arith) (omega arith)
decode_loop-base64 dst_len (a ∷ []) rest acc len (ha, _) stops room =
    first_char dst_len (a / 4) acc len _ (omega arith)
    ∙ byte_char dst_len (a % 4 * 16) (push6 acc (a / 4)) len rest (omega arith) 4 a (omega arith)
        (omega arith)
    ∙ ap (store a) (
        decode_loop-finish dst_len rest _ 4 (len + 1) stops
        ∙ finish_zero _ 4 rest (omega arith) (omega arith))
decode_loop-base64 dst_len (a ∷ b ∷ []) rest acc len (ha, (hb, _)) stops room =
    front_two dst_len a b acc len ha hb _ (omega arith)
    ∙ ap (store a) (
        byte_char dst_len (b % 16 * 4) (push6 (push6 acc (a / 4)) (a % 4 * 16 + b / 16)) (len + 1)
          rest (omega arith) 2 b (omega arith) (omega arith)
        ∙ ap (store b) (
            decode_loop-finish dst_len rest _ 2 (len + 1 + 1) stops
            ∙ finish_zero _ 2 rest (omega arith) (omega arith)))
decode_loop-base64 dst_len (a ∷ b ∷ c ∷ src) rest acc len (ha, (hb, (hc, h))) stops room =
    let acc3 = push6 (push6 (push6 acc (a / 4)) (a % 4 * 16 + b / 16)) (b % 16 * 4 + c / 64) in
    front_three dst_len a b acc len ha hb (c / 64) _ (omega arith) (omega arith)
    ∙ ap (λ r. store a (store b r))
        (byte_char dst_len (c % 64) acc3 (len + 1 + 1) (base64 src ++ rest) (omega arith) 0 c
            (omega arith) (omega arith)
          ∙ ap (store c) (
              decode_loop-base64 dst_len src rest (push6 acc3 (c % 64)) (len + 1 + 1 + 1) h stops
                (omega arith)))

-- The text that `to_base64` writes for some bytes is decoded to these bytes, and the rest of the
-- input, which begins with no Base64 character, is left, if the buffer has room for the bytes.
pub from_base64-base64 :
    (dst_len : ℕ) (src rest : Bytes)
    → AreBytes src
    → Stops rest
    → length src ≤ dst_len
    → from_base64 dst_len (base64 src ++ rest) ≡ some (src, rest)
unfolding from_base64
from_base64-base64 dst_len src rest h stops room =
    decode_loop-base64 dst_len src rest 0 0 h stops (omega arith)

no_room :
    (dst_len a b acc len : ℕ)
    → a < 256
    → b < 256
    → (s : Bytes) → dst_len ≤ len
    → decode_loop dst_len (symbol (a / 4) ∷ symbol (a % 4 * 16 + b / 16) ∷ s) acc 0 len ≡ none
no_room dst_len a b acc len ha hb s full =
    first_char dst_len (a / 4) acc len _ (omega arith)
    ∙ full_char dst_len (a % 4 * 16 + b / 16) (push6 acc (a / 4)) len s (omega arith) 4 full

decode_loop_full :
    (dst_len : ℕ) (src rest : Bytes) (acc len : ℕ)
    → AreBytes src
    → len ≤ dst_len
    → dst_len < len + length src
    → decode_loop dst_len (base64 src ++ rest) acc 0 len ≡ none
unfolding base64
decode_loop_full dst_len [] rest acc len h lo hi = absurd (omega arith)
decode_loop_full dst_len (a ∷ []) rest acc len (ha, _) lo hi =
    first_char dst_len (a / 4) acc len _ (omega arith)
    ∙ full_char dst_len (a % 4 * 16) (push6 acc (a / 4)) len rest (omega arith) 4 (omega arith)
decode_loop_full dst_len (a ∷ b ∷ []) rest acc len (ha, (hb, _)) lo hi =
    elim (lt_or_le len dst_len) [
      | inl room ↦
          front_two dst_len a b acc len ha hb _ room
          ∙ ap (store a) (
              full_char dst_len (b % 16 * 4) (push6 (push6 acc (a / 4)) (a % 4 * 16 + b / 16))
                (len + 1) rest (omega arith) 2 (omega arith))
      | inr full ↦ no_room dst_len a b acc len ha hb _ full
    ]
decode_loop_full dst_len (a ∷ b ∷ c ∷ src) rest acc len (ha, (hb, (hc, h))) lo hi =
    let acc2 = push6 (push6 acc (a / 4)) (a % 4 * 16 + b / 16) in
    let acc3 = push6 acc2 (b % 16 * 4 + c / 64) in
    elim (lt_or_le len dst_len) [
      | inr full ↦ no_room dst_len a b acc len ha hb _ full
      | inl room ↦ elim (lt_or_le (len + 1) dst_len) [
        | inr full ↦
            front_two dst_len a b acc len ha hb _ room
            ∙ ap (store a)
                (full_char dst_len (b % 16 * 4 + c / 64) acc2 (len + 1) _ (omega arith) 2 full)
        | inl room' ↦
            front_three dst_len a b acc len ha hb (c / 64) _ (omega arith) room'
            ∙ ap (λ r. store a (store b r))
                (elim (lt_or_le (len + 1 + 1) dst_len) [
                  | inr full ↦ full_char dst_len (c % 64) acc3 (len + 1 + 1) _ (omega arith) 0 full
                  | inl room'' ↦
                      byte_char dst_len (c % 64) acc3 (len + 1 + 1) _ (omega arith) 0 c room''
                        (omega arith)
                      ∙ ap (store c) (
                          decode_loop_full dst_len src rest (push6 acc3 (c % 64)) (len + 1 + 1 + 1)
                            h (omega arith) (omega arith))
                ])
      ]
    ]

-- The decoding fails if the buffer is too small: it writes no byte out of bounds.
pub from_base64_full :
    (dst_len : ℕ) (src rest : Bytes)
    → AreBytes src
    → dst_len < length src
    → from_base64 dst_len (base64 src ++ rest) ≡ none
unfolding from_base64
from_base64_full dst_len src rest h full =
    decode_loop_full dst_len src rest 0 0 h (omega arith) (omega arith)
