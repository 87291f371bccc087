-- ===== src/Argon2/Encoding/Encode.antt =====
-- `encode_string` against the hash string as one text, and `argon2_encodedlen`.
use security_core.Common.{
  ℕ, ◌+◌, ◌-◌, ◌^◌, ◌≤◌, ◌<◌, ◌≡◌, sym, ap, ◌∙◌, ◌⊎◌, inl, inr, false, some, List, [], ◌∷◌, ◌++◌,
  append-nil, append_assoc, Option, Bytes, codes, length, length-append, AreBytes, arith, leb,
  if◌then◌else◌, Result, ok, err, ◌>>=◌, ◌>>◌,
}
use mathlib.Core.Path.{fun_ext}
use security_core.Argon2.Types
use security_core.Argon2.Types.{ErrorCode, Context, Argon2Type, argon2_type2string}
use security_core.Argon2.Validate.{validate_inputs}
use security_core.Argon2.Validate.Sound.{IsValidContext, validate_inputs_iff}
use security_core.Argon2.Base64.{b64len}
use security_core.Argon2.Base64.Encode.{base64, length-base64, length-base64_ge, to_base64-base64}
use security_core.Argon2.Decimal.{numlen, print_ulong}
use security_core.Argon2.Decimal.RoundTrip.{numlen-print_ulong}
use security_core.Argon2.Encoding.{
  Writer, put_text, put_number, put_base64, bytes_at, encode_string, argon2_encodedlen,
}

-- The parts of a hash string in their order.
abbrev pub parts : Context → Argon2Type → List Bytes
parts c type =
    codes "$"
    ∷ argon2_type2string type false
    ∷ codes "$v="
    ∷ print_ulong c.version
    ∷ codes "$m="
    ∷ print_ulong c.m_cost
    ∷ codes ",t="
    ∷ print_ulong c.t_cost
    ∷ codes ",p="
    ∷ print_ulong c.lanes
    ∷ codes "$"
    ∷ base64 (bytes_at c.salt c.saltlen)
    ∷ codes "$"
    ∷ base64 (bytes_at c.out c.outlen)
    ∷ []

abbrev pub joined : List Bytes → Bytes
joined [] = []
joined (p ∷ ps) = p ++ joined ps

-- $argon2<T>$v=<num>$m=<num>,t=<num>,p=<num>$<bin>$<bin>
unfoldable pub hash_string : Context → Argon2Type → Bytes
hash_string c type = joined (parts c type)

put_all : List Bytes → Writer → Result ErrorCode Bytes
put_all [] w = ok w.text
put_all (p ∷ ps) w = do w' ← put_text p w; put_all ps w'

put_base64-text :
    (buf : Bytes) (w : Writer) → AreBytes buf → put_base64 buf w ≡ put_text (base64 buf) w
unfolding put_base64 put_text
put_base64-text buf w h = ground (arith, to_base64-base64 w.dst_len buf h, length-base64 buf)

put_all_lem :
    (ps : List Bytes) (w : Writer)
    → 0 < w.dst_len
    → put_all ps w ≡ (
        if leb w.dst_len (length (joined ps))
        then err ErrorCode.encoding_fail
        else ok (w.text ++ joined ps))
unfolding put_all put_text
put_all_lem [] w h = ground (arith, append-nil w.text)
put_all_lem (p ∷ ps) w h = ground (
  arith,
  length-append p (joined ps),
  append_assoc w.text p (joined ps),
  put_all_lem ps (record { text = w.text ++ p; dst_len = w.dst_len - length p }),
)

encode_string-put_all :
    (dst_len : ℕ) (c : Context) (type : Argon2Type)
    → AreBytes (bytes_at c.salt c.saltlen)
    → AreBytes (bytes_at c.out c.outlen)
    → encode_string dst_len c type ≡ (
        validate_inputs (some c)
        >> put_all (parts c type) (record { text = []; dst_len = dst_len }))
unfolding encode_string put_all put_number
encode_string-put_all dst_len c type hs ho = rw (
  fun_ext (λ w. put_base64-text (bytes_at c.salt c.saltlen) w hs),
  fun_ext (λ w. put_base64-text (bytes_at c.out c.outlen) w ho),
)

-- On a valid context, whose buffers hold bytes, `encode_string` writes the hash string exactly if
-- the buffer has room for it and its zero byte; otherwise it answers ARGON2_ENCODING_FAIL.
pub encode_string-hash_string :
    (dst_len : ℕ) (c : Context) (type : Argon2Type)
    → 0 < dst_len
    → AreBytes (bytes_at c.salt c.saltlen)
    → AreBytes (bytes_at c.out c.outlen)
    → validate_inputs (some c) ≡ ok tt
    → ((length (hash_string c type) < dst_len)
        × (encode_string dst_len c type ≡ ok (hash_string c type)))
      ⊎ ((dst_len ≤ length (hash_string c type))
          × (encode_string dst_len c type ≡ err ErrorCode.encoding_fail))
unfolding hash_string
encode_string-hash_string dst_len c type pos hs ho valid =
    rw
      (
        encode_string-put_all dst_len c type hs ho,
        valid,
        put_all_lem (parts c type) (record { text = []; dst_len = dst_len }) pos,
      )
      (finish (joined (parts c type)))
  where
    finish :
        (text : Bytes)
        → ((length text < dst_len)
            × ((if leb dst_len (length text) then err ErrorCode.encoding_fail else ok text)
                ≡ ok text))
          ⊎ ((dst_len ≤ length text)
              × ((if leb dst_len (length text) then err ErrorCode.encoding_fail else ok text)
                  ≡ err ErrorCode.encoding_fail))
    finish text = ground arith

-- A pointer with a length points to that many bytes at least, as the caller promises.
abbrev pub HasBytes : Option Bytes → ℕ → Type 0
HasBytes p len = (length (bytes_at p len) ≡ len) × AreBytes (bytes_at p len)

length-version : length (print_ulong Types.version_13) ≡ numlen Types.version_number
length-version = sym (numlen-print_ulong Types.version_13 (omega arith))

-- `argon2_encodedlen` is the length of the hash string and its zero byte.
pub length-hash_string :
    (c : Context) (type : Argon2Type)
    → c.version ≡ Types.version_13
    → c.m_cost < 2 ^ 32
    → c.t_cost < 2 ^ 32
    → c.lanes < 2 ^ 32
    → HasBytes c.salt c.saltlen
    → HasBytes c.out c.outlen
    → length (hash_string c type) + 1
      ≡ argon2_encodedlen c.t_cost c.m_cost c.lanes c.saltlen c.outlen type
unfolding hash_string argon2_encodedlen
length-hash_string c type v m t l (salt, _) (out, _) = omega (
  arith,
  length-append {0},
  ap (λ n. length (print_ulong n)) v ∙ length-version,
  numlen-print_ulong c.m_cost m,
  numlen-print_ulong c.t_cost t,
  numlen-print_ulong c.lanes l,
  length-base64 (bytes_at c.salt c.saltlen) ∙ ap b64len salt,
  length-base64 (bytes_at c.out c.outlen) ∙ ap b64len out,
)

-- A buffer of `argon2_encodedlen` bytes is enough to encode a valid context of the current
-- version, and every smaller one is too small.
pub encode_string-argon2_encodedlen :
    (dst_len : ℕ) (c : Context) (type : Argon2Type)
    → 0 < dst_len
    → IsValidContext c
    → c.version ≡ Types.version_13
    → HasBytes c.salt c.saltlen
    → HasBytes c.out c.outlen
    → let needed = argon2_encodedlen c.t_cost c.m_cost c.lanes c.saltlen c.outlen type in
      ((needed ≤ dst_len) × (encode_string dst_len c type ≡ ok (hash_string c type)))
      ⊎ ((dst_len < needed) × (encode_string dst_len c type ≡ err ErrorCode.encoding_fail))
encode_string-argon2_encodedlen dst_len c type pos valid v hs ho =
    let len = length-hash_string c type v (omega arith) (omega arith) (omega arith) hs ho in
    elim (encode_string-hash_string dst_len c type pos hs.1 ho.1
      ((validate_inputs_iff c).1 valid)) [
        | inl (fits, e) ↦ inl (omega (arith, len), e)
        | inr (full, e) ↦ inr (omega (arith, len), e)
      ]

-- No field is longer than the string.
pub hash_string-long :
    (c : Context) (type : Argon2Type)
    → (length (bytes_at c.salt c.saltlen) ≤ length (hash_string c type))
      × (length (bytes_at c.out c.outlen) ≤ length (hash_string c type))
unfolding hash_string
hash_string-long c type =
    let salt = length-base64_ge (bytes_at c.salt c.saltlen) in
    let out = length-base64_ge (bytes_at c.out c.outlen) in
    (omega (arith, length-append {0}, salt), omega (arith, length-append {0}, out))
