-- ===== src/Argon2/Encoding/Tests.antt =====
-- The encoding of a context, and its decoding into another one.
use security_core.Common.{
  ◌≡◌, refl, ap, ◌⊎◌, ◌≤◌, ◌<◌, inl, inr, some, arith, length, replicate, codes, are_bytes-AreBytes,
  ok, err,
}
use security_core.Argon2.Types.{ErrorCode, Context, Argon2Type, argon2_type2string}
use security_core.Argon2.Validate.Sound.{validate_inputs_iff}
use security_core.Argon2.Validate.Tests.{sample, sample-IsValidContext}
use security_core.Argon2.Decimal.{print_ulong, digits}
use security_core.Argon2.Base64.Chars.{symbol}
use security_core.Argon2.Base64.Encode.{base64}
use security_core.Argon2.Encoding.{bytes_at, argon2_encodedlen, encode_string, decode_string}
use security_core.Argon2.Encoding.Encode.{
  HasBytes, hash_string, encode_string-hash_string, encode_string-argon2_encodedlen,
}
use security_core.Argon2.Encoding.Decode.{decode_string-encode_string}

salt-HasBytes : HasBytes sample.salt 8
salt-HasBytes = (refl, are_bytes-AreBytes (codes "somesalt") refl)

out-HasBytes : HasBytes sample.out 5
out-HasBytes = (refl, are_bytes-AreBytes (replicate 5 200) refl)

encode_string-argon2_encodedlen_example :
    let needed = argon2_encodedlen 2 64 2 8 5 Argon2Type.argon2_id in
    ((needed ≤ 90)
      × (encode_string 90 sample Argon2Type.argon2_id
          ≡ ok (hash_string sample Argon2Type.argon2_id)))
    ⊎ ((90 < needed) × (encode_string 90 sample Argon2Type.argon2_id ≡ err ErrorCode.encoding_fail))
encode_string-argon2_encodedlen_example =
    encode_string-argon2_encodedlen 90 sample Argon2Type.argon2_id (omega arith)
      sample-IsValidContext refl salt-HasBytes out-HasBytes

sample_text :
    hash_string sample Argon2Type.argon2_id
    ≡ codes "$argon2id$v=19$m=64,t=2,p=2$c29tZXNhbHQ$yMjIyMg"
unfolding hash_string argon2_type2string print_ulong digits base64 symbol
sample_text = refl

encode_sample :
    encode_string 90 sample Argon2Type.argon2_id ≡ ok (hash_string sample Argon2Type.argon2_id)
encode_sample =
    elim (encode_string-hash_string 90 sample Argon2Type.argon2_id (omega arith) salt-HasBytes.1
      out-HasBytes.1 ((validate_inputs_iff sample).1 sample-IsValidContext)) [
        | inl (fits, e) ↦ e
        | inr (full, e) ↦ absurd (omega (arith, ap length sample_text))
      ]

-- What a caller of `decode_string` prepares.
abbrev empty : Context
empty = record sample {
  out = some (replicate 47 0);
  outlen = 47;
  salt = some (replicate 47 0);
  saltlen = 47;
  t_cost = 0;
  m_cost = 0;
  lanes = 0;
  threads = 0;
  version = 0;
}

decode_string-encode_string_example :
    (r : Context) × (decode_string empty
        (hash_string sample Argon2Type.argon2_id)
        Argon2Type.argon2_id
      ≡ ok r)
    × (r.version ≡ 0x13)
    × (r.m_cost ≡ 64)
    × (r.t_cost ≡ 2)
    × (r.lanes ≡ 2)
    × (bytes_at r.salt r.saltlen ≡ codes "somesalt")
    × (bytes_at r.out r.outlen ≡ replicate 5 200)
decode_string-encode_string_example =
    decode_string-encode_string 90 sample empty Argon2Type.argon2_id
      (hash_string sample Argon2Type.argon2_id) (omega arith) sample-IsValidContext (omega arith)
      salt-HasBytes out-HasBytes (omega arith) (omega arith) refl refl
      ((λ e. cc), omega arith, omega arith) encode_sample
