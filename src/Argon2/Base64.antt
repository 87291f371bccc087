-- ===== src/Argon2/Base64.antt =====
-- The Base64 part of Sources/CArgon2/encoding.c: the constant-time comparisons, the conversion of
-- one character, `to_base64`, `from_base64` and `b64len`.
-- A C string is the list of its bytes before the terminating zero. `unsigned` has 32 bits, and
-- `char` is signed, as on the Apple platforms that the package is built for.
pub mod Chars
pub mod Encode
pub mod Decode
mod Tests
use security_core.Common.{
  ℕ, zero, suc, ◌+◌, ◌-◌, ◌*◌, ◌/◌, ◌%◌, ◌^◌, bit_and, bit_or, bit_xor, not, ◌||◌, Option, none,
  some, [], ◌∷◌, ◌++◌, Bytes, length, ltb, leb, ◌==◌, if◌then◌else◌, u8, u32, sub32, ◌<<<◌, ◌>>>◌,
}

-- EQ, GT, GE, LT and LE: 0xff for true and 0 for false.
abbrev pub eq_mask : ℕ → ℕ → ℕ
eq_mask x y = bit_xor (bit_and (sub32 0 (bit_xor x y) >>> 8) 0xff) 0xff

abbrev pub gt_mask : ℕ → ℕ → ℕ
gt_mask x y = bit_and (sub32 y x >>> 8) 0xff

abbrev pub ge_mask : ℕ → ℕ → ℕ
ge_mask x y = bit_xor (gt_mask y x) 0xff

abbrev pub lt_mask : ℕ → ℕ → ℕ
lt_mask x y = gt_mask y x

abbrev pub le_mask : ℕ → ℕ → ℕ
le_mask x y = ge_mask y x

-- `'0' - 52` is the negative number -4, which becomes 2 ^ 32 - 4 beside an `unsigned`.
pub b64_byte_to_char : ℕ → ℕ
b64_byte_to_char x =
    bit_or
      (bit_or
        (bit_or
          (bit_or (bit_and (lt_mask x 26) (u32 (x + b'A')))
            (bit_and (bit_and (ge_mask x 26) (lt_mask x 52)) (u32 (x + (b'a' - 26)))))
          (bit_and (bit_and (ge_mask x 52) (lt_mask x 62)) (u32 (x + (2 ^ 32 - 4)))))
        (bit_and (eq_mask x 62) b'+'))
      (bit_and (eq_mask x 63) b'/')

-- `*src` as the argument of `b64_char_to_byte`: a byte from 128 on is a negative `char`, and its
-- value as an `unsigned` is near 2 ^ 32.
pub char_to_int : ℕ → ℕ
char_to_int b = if ltb b 128 then b else b + (2 ^ 32 - 256)

pub b64_char_to_byte : ℕ → ℕ
b64_char_to_byte c =
    let x =
      bit_or
        (bit_or
          (bit_or
            (bit_or (bit_and (bit_and (ge_mask c b'A') (le_mask c b'Z')) (sub32 c b'A'))
              (bit_and (bit_and (ge_mask c b'a') (le_mask c b'z')) (sub32 c (b'a' - 26))))
            (bit_and (bit_and (ge_mask c b'0') (le_mask c b'9')) (u32 (c + 4))))
          (bit_and (eq_mask c b'+') 62))
        (bit_and (eq_mask c b'/') 63) in
    bit_or x (bit_and (eq_mask x 0) (bit_xor (eq_mask c b'A') 0xff))

-- The length of the text for `len` bytes; `to_base64` computes it in the same way.
unfoldable pub b64len : ℕ → ℕ
b64len len =
    let olen = (len / 3) <<< 2 in
    if len % 3 == 2 then olen + 1 + 2 else if len % 3 == 1 then olen + 2 else olen

-- The character for the six bits of the accumulator that stand above its lowest `acc_len` bits.
abbrev pub sextet : ℕ → ℕ → ℕ
sextet acc acc_len = u8 (b64_byte_to_char (bit_and (acc >>> acc_len) 0x3f))

-- `while (acc_len >= 6)`: the characters, and the number of bits left. Each round takes six bits,
-- so `acc_len` rounds are enough fuel.
pub flush : ℕ → ℕ → ℕ → Bytes × ℕ
flush zero acc acc_len = ([], acc_len)
flush (suc fuel) acc acc_len =
    let more = flush fuel acc (acc_len - 6) in
    if leb 6 acc_len then (sextet acc (acc_len - 6) ∷ more.0, more.1) else ([], acc_len)

-- The accumulator is not cleared: its upper bits fall out at the left.
pub encode_loop : Bytes → ℕ → ℕ → Bytes
encode_loop [] acc acc_len =
    if ltb 0 acc_len
    then u8 (b64_byte_to_char (bit_and (u32 (acc <<< (6 - acc_len))) 0x3f)) ∷ []
    else []
encode_loop (b ∷ src) acc acc_len =
    let acc' = u32 (u32 (acc <<< 8) + b) in
    let out = flush (acc_len + 8) acc' (acc_len + 8) in out.0 ++ encode_loop src acc' out.1

-- The text, without its zero byte, and the returned length; `none` is (size_t)-1.
pub to_base64 : ℕ → Bytes → Option (Bytes × ℕ)
to_base64 dst_len src =
    let olen = b64len (length src) in
    if leb dst_len olen then none else some (encode_loop src 0 0, olen)

-- After the loop: no more than four bits are left, and they are zero.
pub finish : ℕ → ℕ → Bytes → Option (Bytes × Bytes)
finish acc acc_len src =
    if ltb 4 acc_len || not (bit_and acc (2 ^ acc_len - 1) == 0) then none else some ([], src)

-- `*buf++ = byte;` before the rest of the loop.
abbrev pub store : ℕ → Option (Bytes × Bytes) → Option (Bytes × Bytes)
store byte none = none
store byte (some (out, rest)) = some (byte ∷ out, rest)

-- The end of the list is the zero byte, which is no Base64 character. `dst_len` is the capacity.
pub decode_loop : ℕ → Bytes → ℕ → ℕ → ℕ → Option (Bytes × Bytes)
decode_loop dst_len [] acc acc_len len = finish acc acc_len []
decode_loop dst_len (c ∷ src) acc acc_len len =
    let d = b64_char_to_byte (char_to_int c) in
    let acc' = u32 (u32 (acc <<< 6) + d) in
    let short = decode_loop dst_len src acc' (acc_len + 6) len in
    let next = decode_loop dst_len src acc' (acc_len + 6 - 8) (len + 1) in
    if d == 0xff
    then finish acc acc_len (c ∷ src)
    else if leb 8 (acc_len + 6)
    then if leb dst_len len then none else store (bit_and (acc' >>> (acc_len + 6 - 8)) 0xff) next
    else short

-- The bytes and the rest of the input; `none` is NULL. The length of the bytes is what the code
-- writes back to `*dst_len`.
pub from_base64 : ℕ → Bytes → Option (Bytes × Bytes)
from_base64 dst_len src = decode_loop dst_len src 0 0 0
