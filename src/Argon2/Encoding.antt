-- ===== src/Argon2/Encoding.antt =====
-- The hash strings of Sources/CArgon2/encoding.c, `encode_string` and `decode_string`, and
-- `argon2_encodedlen` of Sources/CArgon2/argon2.c.
pub mod Encode
pub mod Decode
mod Tests
use security_core.Common.{
  ℕ, ◌+◌, ◌-◌, ◌<◌, Bool, true, false, Option, none, some, [], ◌∷◌, ◌++◌, Bytes, codes, length,
  take, drop, leb, ltb, ◌==◌, if◌then◌else◌, Result, ok, err, ◌>>=◌, ◌>>◌,
}
use mathlib.Core.Option
use security_core.Argon2.Types
use security_core.Argon2.Types.{ErrorCode, Context, Argon2Type, argon2_type2string}
use security_core.Argon2.Validate.{validate_inputs}
use security_core.Argon2.Base64.{to_base64, from_base64, b64len}
use security_core.Argon2.Decimal.{decode_decimal, numlen, print_ulong}

-- The text that stands in front of `dst`, and `dst_len`.
pub record Writer : Type 0 where
  pub text : Bytes
  pub dst_len : ℕ

-- SS. The code also writes a zero byte behind the text, which the next write covers.
pub put_text : Bytes → Writer → Result ErrorCode Writer
put_text str w =
    if leb w.dst_len (length str)
    then err ErrorCode.encoding_fail
    else ok (record { text = w.text ++ str; dst_len = w.dst_len - length str })

-- SX
pub put_number : ℕ → Writer → Result ErrorCode Writer
put_number x w = put_text (print_ulong x) w

abbrev put_result : Writer → Option (Bytes × ℕ) → Result ErrorCode Writer
put_result w none = err ErrorCode.encoding_fail
put_result w (some (out, sb_len)) =
    ok (record { text = w.text ++ out; dst_len = w.dst_len - sb_len })

-- SB
pub put_base64 : Bytes → Writer → Result ErrorCode Writer
put_base64 buf w = put_result w (to_base64 w.dst_len buf)

-- The `len` bytes that a pointer points to.
abbrev pub bytes_at : Option Bytes → ℕ → Bytes
bytes_at none len = []
bytes_at (some b) len = take len b

-- The text that is written to `dst`. What stands there after a failure is not modelled: the one
-- caller, `argon2_hash`, clears it.
pub encode_string : ℕ → Context → Argon2Type → Result ErrorCode Bytes
encode_string dst_len c type = do
  validate_inputs (some c)
  w1 ← put_text (codes "$") (record { text = []; dst_len = dst_len })
  w2 ← put_text (argon2_type2string type false) w1
  w3 ← put_text (codes "$v=") w2
  w4 ← put_number c.version w3
  w5 ← put_text (codes "$m=") w4
  w6 ← put_number c.m_cost w5
  w7 ← put_text (codes ",t=") w6
  w8 ← put_number c.t_cost w7
  w9 ← put_text (codes ",p=") w8
  w10 ← put_number c.lanes w9
  w11 ← put_text (codes "$") w10
  w12 ← put_base64 (bytes_at c.salt c.saltlen) w11
  w13 ← put_text (codes "$") w12
  w14 ← put_base64 (bytes_at c.out c.outlen) w13
  ok w14.text

-- `strncmp(str, prefix, strlen(prefix))` is 0: what stands behind the prefix.
pub strip_prefix : Bytes → Bytes → Option Bytes
strip_prefix [] str = some str
strip_prefix (p ∷ prefix) [] = none
strip_prefix (p ∷ prefix) (c ∷ str) = if c == p then strip_prefix prefix str else none

abbrev or_fail {ℓ} : {A : Type ℓ} → Option A → Result ErrorCode A
or_fail none = err ErrorCode.decoding_fail
or_fail (some a) = ok a

-- CC
pub expect : Bytes → Bytes → Result ErrorCode Bytes
expect prefix str = or_fail (strip_prefix prefix str)

abbrev narrow : ℕ × Bytes → Result ErrorCode (ℕ × Bytes)
narrow (v, str) = if ltb Types.uint32_max v then err ErrorCode.decoding_fail else ok (v, str)

-- DECIMAL_U32
pub decimal_u32 : Bytes → Result ErrorCode (ℕ × Bytes)
decimal_u32 str = or_fail (decode_decimal str) >>= narrow

abbrev narrow_bin : Bytes × Bytes → Result ErrorCode (Bytes × Bytes)
narrow_bin (bin, str) =
    if ltb Types.uint32_max (length bin) then err ErrorCode.decoding_fail else ok (bin, str)

-- BIN
pub read_bin : ℕ → Bytes → Result ErrorCode (Bytes × Bytes)
read_bin max_len str = or_fail (from_base64 max_len str) >>= narrow_bin

-- Writes at the front of the buffer that a pointer points to.
abbrev pub write_front : Bytes → Option Bytes → Option Bytes
write_front new none = none
write_front new (some old) = some (new ++ drop (length new) old)

-- CC_opt with DECIMAL_U32 inside: the version is 0x10 if no version is named.
pub read_version : Bytes → Result ErrorCode (ℕ × Bytes)
read_version str = elim (strip_prefix (codes "$v=") str) [
  | none ↦ ok (Types.version_10, str)
  | some rest ↦ decimal_u32 rest
]

abbrev pub expect_end : Bytes → Context → Result ErrorCode Context
expect_end [] c = ok c
expect_end (x ∷ str) c = err ErrorCode.decoding_fail

-- The context as it is when the code returns ARGON2_OK.
pub decode_string : Context → Bytes → Argon2Type → Result ErrorCode Context
decode_string c str type = do
  s1 ← expect (codes "$") str
  s2 ← expect (argon2_type2string type false) s1
  (version, s3) ← read_version s2
  s4 ← expect (codes "$m=") s3
  (m_cost, s5) ← decimal_u32 s4
  s6 ← expect (codes ",t=") s5
  (t_cost, s7) ← decimal_u32 s6
  s8 ← expect (codes ",p=") s7
  (lanes, s9) ← decimal_u32 s8
  s10 ← expect (codes "$") s9
  (salt, s11) ← read_bin c.saltlen s10
  s12 ← expect (codes "$") s11
  (out, s13) ← read_bin c.outlen s12
  let c' = record c {
    version = version;
    m_cost = m_cost;
    t_cost = t_cost;
    lanes = lanes;
    threads = lanes;
    salt = write_front salt c.salt;
    saltlen = length salt;
    out = write_front out c.out;
    outlen = length out;
    secret = none;
    secretlen = 0;
    ad = none;
    adlen = 0;
    allocate_cbk = false;
    free_cbk = false;
    flags = 0;
  }
  validate_inputs (some c')
  expect_end s13 c'

unfoldable pub argon2_encodedlen : ℕ → ℕ → ℕ → ℕ → ℕ → Argon2Type → ℕ
argon2_encodedlen t_cost m_cost parallelism saltlen hashlen type =
    length (codes "$$v=$m=,t=,p=$$")
    + length (argon2_type2string type false)
    + numlen t_cost
    + numlen m_cost
    + numlen parallelism
    + b64len saltlen
    + b64len hashlen
    + numlen Types.version_number
    + 1
