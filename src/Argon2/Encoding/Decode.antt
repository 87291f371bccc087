-- ===== src/Argon2/Encoding/Decode.antt =====
-- `decode_string` of Sources/CArgon2/encoding.c on what `encode_string` writes.
use security_core.Common.{
  ℕ, ◌^◌, ◌≤◌, ◌<◌, ◌≡◌, refl, ap, ◌∙◌, false, Option, some, none, [], ◌∷◌, ◌++◌, Bytes, codes,
  length, take-append, drop, inl, inr, AreBytes, arith, Result, ok, ◌>>=◌, ◌>>◌,
}
use security_core.Argon2.Types.{ErrorCode, Context, Argon2Type, argon2_type2string}
use security_core.Argon2.Validate.{is_null, validate_inputs}
use security_core.Argon2.Validate.Sound.{IsBuffer, IsValidContext, validate_inputs_iff}
use security_core.Argon2.Base64.Chars.{dollar_is_no_base64}
use security_core.Argon2.Base64.Encode.{base64}
use security_core.Argon2.Base64.Decode.{Stops, from_base64-base64}
use security_core.Argon2.Decimal.{print_ulong}
use security_core.Argon2.Decimal.RoundTrip.{EndsNumber, decode_decimal-print_ulong}
use security_core.Argon2.Encoding.{
  bytes_at, write_front, strip_prefix, expect, decimal_u32, read_bin, read_version, decode_string,
  encode_string,
}
use security_core.Argon2.Encoding.Encode.{HasBytes, hash_string, encode_string-hash_string}

bind_ok {ℓ κ} :
    {A : Type ℓ} {B : Type κ} {m : Result ErrorCode A} {a : A}
    → m ≡ ok a
    → (f : A → Result ErrorCode B) → (m >>= f) ≡ f a
bind_ok e f = ap (λ r. r >>= f) e

strip_prefix-append : (p rest : Bytes) → strip_prefix p (p ++ rest) ≡ some rest
unfolding strip_prefix
strip_prefix-append [] rest = refl
strip_prefix-append (x ∷ p) rest = ground (arith, strip_prefix-append p rest)

expect-append : (p rest : Bytes) → expect p (p ++ rest) ≡ ok rest
unfolding expect
expect-append p rest = rw (strip_prefix-append p rest)

decimal_u32-print_ulong :
    (n : ℕ) (rest : Bytes)
    → n < 2 ^ 32
    → EndsNumber rest
    → decimal_u32 (print_ulong n ++ rest) ≡ ok (n, rest)
unfolding decimal_u32
decimal_u32-print_ulong n rest h ends =
    rw (decode_decimal-print_ulong n rest (omega arith) ends) (ground arith)

read_version-append : (rest : Bytes) → read_version (codes "$v=" ++ rest) ≡ decimal_u32 rest
unfolding read_version strip_prefix
read_version-append rest = refl

read_bin-base64 :
    (max_len : ℕ) (b rest : Bytes)
    → AreBytes b
    → Stops rest
    → length b ≤ max_len
    → length b < 2 ^ 32
    → read_bin max_len (base64 b ++ rest) ≡ ok (b, rest)
unfolding read_bin
read_bin-base64 max_len b rest h stops fits short =
    rw (from_base64-base64 max_len b rest h stops fits) (ground arith)

-- What `decode_string` leaves in the receiving context `d` for the hash string of `c`.
abbrev pub decoded : Context → Context → Context
decoded c d =
    let salt = bytes_at c.salt c.saltlen in
    let out = bytes_at c.out c.outlen in
    record d {
      version = c.version;
      m_cost = c.m_cost;
      t_cost = c.t_cost;
      lanes = c.lanes;
      threads = c.lanes;
      salt = write_front salt d.salt;
      saltlen = length salt;
      out = write_front out d.out;
      outlen = length out;
      secret = none;
      secretlen = 0;
      ad = none;
      adlen = 0;
      allocate_cbk = false;
      free_cbk = false;
      flags = 0;
    }

pub is_null-write_front : (new : Bytes) (p : Option Bytes) → is_null (write_front new p) ≡ is_null p
is_null-write_front new none = refl
is_null-write_front new (some old) = refl

module _ (c d : Context) (type : Argon2Type) (hs : HasBytes c.salt c.saltlen)
    (ho : HasBytes c.out c.outlen) (salt_room : c.saltlen ≤ d.saltlen)
    (out_room : c.outlen ≤ d.outlen) (valid : IsValidContext c) (v : c.version < 2 ^ 32) where
  decode_string-parts :
      decode_string d (hash_string c type) type
      ≡ (validate_inputs (some (decoded c d)) >> ok (decoded c d))
  unfolding decode_string hash_string
  decode_string-parts =
      bind_ok (expect-append (codes "$") _) _
      ∙ bind_ok (expect-append (argon2_type2string type false) _) _
      ∙ bind_ok (read_version-append _ ∙ decimal_u32-print_ulong c.version _ v refl) _
      ∙ bind_ok (expect-append (codes "$m=") _) _
      ∙ bind_ok (decimal_u32-print_ulong c.m_cost _ (omega arith) refl) _
      ∙ bind_ok (expect-append (codes ",t=") _) _
      ∙ bind_ok (decimal_u32-print_ulong c.t_cost _ (omega arith) refl) _
      ∙ bind_ok (expect-append (codes ",p=") _) _
      ∙ bind_ok (decimal_u32-print_ulong c.lanes _ (omega arith) refl) _
      ∙ bind_ok (expect-append (codes "$") _) _
      ∙ bind_ok
          (read_bin-base64 d.saltlen (bytes_at c.salt c.saltlen) _ hs.1 dollar_is_no_base64
            (omega arith) (omega arith))
          _
      ∙ bind_ok (expect-append (codes "$") _) _
      ∙ bind_ok
          (read_bin-base64 d.outlen (bytes_at c.out c.outlen) [] ho.1 tt (omega arith)
            (omega arith))
          _

  pub decoded-IsValidContext :
      is_null d.salt ≡ false
      → is_null d.out ≡ false
      → IsBuffer d.pwd d.pwdlen 0
      → IsValidContext (decoded c d)
  decoded-IsValidContext salt_set out_set pwd = record {
    out_set = is_null-write_front _ d.out ∙ out_set;
    out_range = omega arith;
    pwd_buffer = pwd;
    salt_buffer = (
      λ n. cc (n, is_null-write_front (bytes_at c.salt c.saltlen) d.salt, salt_set),
      omega arith,
      omega arith,
    );
    secret_buffer = omega arith;
    ad_buffer = omega arith;
    memory_range = omega arith;
    time_range = omega arith;
    lanes_range = omega arith;
    threads_range = omega arith;
    callbacks = refl;
  }

  pub decode_string-hash_string :
      is_null d.salt ≡ false
      → is_null d.out ≡ false
      → IsBuffer d.pwd d.pwdlen 0
      → decode_string d (hash_string c type) type ≡ ok (decoded c d)
  decode_string-hash_string salt_set out_set pwd =
      decode_string-parts
      ∙ bind_ok ((validate_inputs_iff _).1 (decoded-IsValidContext salt_set out_set pwd)) _

-- What is written at the front of a buffer is read back from it.
pub bytes_at-write_front :
    (new : Bytes) (p : Option Bytes)
    → is_null p ≡ false
    → bytes_at (write_front new p) (length new) ≡ new
bytes_at-write_front new none h = cc
bytes_at-write_front new (some old) h = take-append new (drop (length new) old) (length new) refl

-- Whatever `encode_string` writes for a valid context `c`, `decode_string` accepts, and it gives
-- back the version, the costs, the lanes, the salt and the output of `c`; `d` is the receiving
-- context, whose buffers hold as many bytes as those of `c`.
pub decode_string-encode_string :
    (dst_len : ℕ) (c d : Context) (type : Argon2Type) (text : Bytes)
    → 0 < dst_len
    → IsValidContext c
    → c.version < 2 ^ 32
    → HasBytes c.salt c.saltlen
    → HasBytes c.out c.outlen
    → c.saltlen ≤ d.saltlen
    → c.outlen ≤ d.outlen
    → is_null d.salt ≡ false
    → is_null d.out ≡ false
    → IsBuffer d.pwd d.pwdlen 0
    → encode_string dst_len c type ≡ ok text
    → (r : Context) × (decode_string d text type ≡ ok r)
      × (r.version ≡ c.version)
      × (r.m_cost ≡ c.m_cost)
      × (r.t_cost ≡ c.t_cost)
      × (r.lanes ≡ c.lanes)
      × (bytes_at r.salt r.saltlen ≡ bytes_at c.salt c.saltlen)
      × (bytes_at r.out r.outlen ≡ bytes_at c.out c.outlen)
decode_string-encode_string dst_len c d type text pos valid v hs ho sr or salt_set out_set pwd e = (
  decoded c d,
  ap (λ t. decode_string d t type) text_is
      ∙ decode_string-hash_string c d type hs ho sr or valid v salt_set out_set pwd,
  refl,
  refl,
  refl,
  refl,
  bytes_at-write_front _ d.salt salt_set,
  bytes_at-write_front _ d.out out_set,
)
  where
    text_is : text ≡ hash_string c type
    text_is =
        elim (encode_string-hash_string dst_len c type pos hs.1 ho.1
          ((validate_inputs_iff c).1 valid)) [
            | inl (fits, w) ↦ cc (w, e)
            | inr (full, w) ↦ cc (w, e)
          ]
