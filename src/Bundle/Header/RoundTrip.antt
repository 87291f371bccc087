-- ===== src/Bundle/Header/RoundTrip.antt =====
-- `parse` of Sources/UltraLockedFormat/BundleHeader.swift on what `serialize` writes.
use security_core.Common.{
  ℕ, ◌+◌, ◌*◌, ◌/◌, ◌%◌, ◌^◌, ◌<◌, ◌≡◌, refl, ap, ◌∙◌, some, [], ◌∷◌, ◌++◌, append_assoc, Bytes,
  length, length-append, take, drop, take-append, drop-append, drop-append_more, get_or-append_more,
  replicate, arith, true, le→leb, ok, bit_or, get_or,
}
use security_core.Common.Bits.{bit_or-shifted}
use security_core.Bundle.Header.{
  BundleHeader, magic, le16, le32, read_le16, read_le32, header_fields, serialize, check_magic,
  all_zero, header_at, parse, parse_bytes, subdata,
}
use security_core.Bundle.Header.Valid.{IsHeader, IsHeader-init_header}

-- The 96 bytes: 20 of fixed fields, salt, nonce, size and reserved bytes.
abbrev pub layout : BundleHeader → Bytes → Bytes
layout h reserved =
    magic
    ++ (le16 h.version
        ++ ((h.kdf_id ∷ [])
            ++ (le32 h.argon2_time_cost
                ++ (le32 h.argon2_memory_kib
                    ++ ((h.argon2_parallelism ∷ [])
                        ++ (h.salt ++ (h.manifest_nonce ++ (le32 h.manifest_size ++ reserved))))))))

abbrev pub zeros : Bytes
zeros = replicate 44 0

pub read_le16_value :
    (a b v : ℕ) → a ≡ v % 256 → b ≡ v / 256 % 256 → v < 2 ^ 16 → bit_or a (b * 2 ^ 8) ≡ v
read_le16_value a b v p q h = omega (arith, bit_or-shifted 8 a b (omega arith))

pub read_le32_sum :
    (a b c d : ℕ)
    → a < 256
    → b < 256
    → c < 256
    → bit_or (bit_or (bit_or a (b * 2 ^ 8)) (c * 2 ^ 16)) (d * 2 ^ 24)
      ≡ a + b * 2 ^ 8 + c * 2 ^ 16 + d * 2 ^ 24
read_le32_sum a b c d ha hb hc = rw (
  bit_or-shifted 8 a b (omega arith),
  bit_or-shifted 16 (a + b * 2 ^ 8) c (omega arith),
  bit_or-shifted 24 (a + b * 2 ^ 8 + c * 2 ^ 16) d (omega arith),
)

pub read_le32_value :
    (v : ℕ)
    → v < 2 ^ 32
    → bit_or
        (bit_or (bit_or (v % 256) (v / 256 % 256 * 2 ^ 8)) (v / 65536 % 256 * 2 ^ 16))
        (v / 16777216 % 256 * 2 ^ 24)
      ≡ v
read_le32_value v h =
    read_le32_sum (v % 256) (v / 256 % 256) (v / 65536 % 256) (v / 16777216 % 256) (omega arith)
      (omega arith) (omega arith)
    ∙ omega arith

module _ (h : BundleHeader) (v : IsHeader h) where
  length-header_fields : length (header_fields h) ≡ 52
  unfolding header_fields
  length-header_fields = omega (
    arith,
    length-append h.salt (h.manifest_nonce ++ le32 h.manifest_size),
    length-append h.manifest_nonce (le32 h.manifest_size),
  )

  length-layout : length (layout h zeros) ≡ 96
  length-layout = omega (
    arith,
    length-append h.salt (h.manifest_nonce ++ (le32 h.manifest_size ++ zeros)),
    length-append h.manifest_nonce (le32 h.manifest_size ++ zeros),
  )

  header_fields-layout : header_fields h ++ zeros ≡ layout h zeros
  unfolding header_fields
  header_fields-layout = rw (
    append_assoc h.salt (h.manifest_nonce ++ le32 h.manifest_size) zeros,
    append_assoc h.manifest_nonce (le32 h.manifest_size) zeros,
  )

  pub serialize-layout : serialize h ≡ some (layout h zeros)
  unfolding serialize
  serialize-layout = rw (length-header_fields, header_fields-layout, length-layout)

  version_at_8 : (reserved : Bytes) → read_le16 (layout h reserved) 8 ≡ h.version
  unfolding read_le16
  version_at_8 reserved = read_le16_value _ _ h.version refl refl (omega arith)

  time_at_11 : (reserved : Bytes) → read_le32 (layout h reserved) 11 ≡ h.argon2_time_cost
  unfolding read_le32
  time_at_11 reserved = read_le32_value h.argon2_time_cost (omega arith)

  memory_at_15 : (reserved : Bytes) → read_le32 (layout h reserved) 15 ≡ h.argon2_memory_kib
  unfolding read_le32
  memory_at_15 reserved = read_le32_value h.argon2_memory_kib (omega arith)

  tail_byte :
      (ys : Bytes) (i j : ℕ)
      → i ≡ 28 + j
      → get_or (h.salt ++ (h.manifest_nonce ++ ys)) i 0 ≡ get_or ys j 0
  tail_byte ys i j e =
      get_or-append_more h.salt (h.manifest_nonce ++ ys) i (12 + j) 0 (omega arith)
      ∙ get_or-append_more h.manifest_nonce ys (12 + j) j 0 (omega arith)

  size_at_48 : (reserved : Bytes) → read_le32 (layout h reserved) 48 ≡ h.manifest_size
  unfolding read_le32
  size_at_48 reserved =
      let tail = le32 h.manifest_size ++ reserved in
      rw
        (
          tail_byte tail 28 0 (omega arith),
          tail_byte tail 29 1 (omega arith),
          tail_byte tail 30 2 (omega arith),
          tail_byte tail 31 3 (omega arith),
        )
        (read_le32_value h.manifest_size (omega arith))

  nonce_at_36 : (reserved : Bytes) → subdata (layout h reserved) 36 48 ≡ h.manifest_nonce
  nonce_at_36 reserved =
      let tail = le32 h.manifest_size ++ reserved in
      ap (take 12) (drop-append h.salt (h.manifest_nonce ++ tail) 16 v.salt_16)
      ∙ take-append h.manifest_nonce tail 12 v.nonce_12

  reserved_at_52 : (reserved : Bytes) → drop 52 (layout h reserved) ≡ reserved
  reserved_at_52 reserved =
      let tail = le32 h.manifest_size ++ reserved in
      drop-append_more h.salt (h.manifest_nonce ++ tail) 32 16 (omega arith)
      ∙ drop-append_more h.manifest_nonce tail 16 4 (omega arith)

  header_at-layout : (reserved : Bytes) → header_at (layout h reserved) ≡ h
  unfolding header_at
  header_at-layout reserved = λ i. record {
    version = version_at_8 reserved i;
    kdf_id = h.kdf_id;
    argon2_time_cost = time_at_11 reserved i;
    argon2_memory_kib = memory_at_15 reserved i;
    argon2_parallelism = h.argon2_parallelism;
    salt =
        take-append h.salt (h.manifest_nonce ++ (le32 h.manifest_size ++ reserved)) 16 v.salt_16 i;
    manifest_nonce = nonce_at_36 reserved i;
    manifest_size = size_at_48 reserved i;
  }

  check_magic-layout : (reserved : Bytes) → check_magic 0 magic (layout h reserved) ≡ ok tt
  unfolding check_magic
  check_magic-layout reserved = refl

  zeros_at_52 : all_zero (subdata (layout h zeros) 52 96) ≡ true
  unfolding all_zero
  zeros_at_52 = ap (λ r. all_zero (take 44 r)) (reserved_at_52 zeros)

  pub parse_bytes-layout : parse_bytes (layout h zeros) ≡ ok h
  unfolding parse_bytes
  parse_bytes-layout =
      rw (check_magic-layout zeros, zeros_at_52, header_at-layout zeros) (IsHeader-init_header h v)

  parse-layout : (more : Bytes) → parse (layout h zeros ++ more) ≡ ok h
  unfolding parse
  parse-layout more = rw (
    take-append (layout h zeros) more 96 length-layout,
    parse_bytes-layout,
    le→leb 96 (length (layout h zeros ++ more))
        (omega (arith, length-append (layout h zeros) more, length-layout)),
  )

-- A valid header is serialized to 96 bytes, without the trap, and `parse` reads it back from any
-- file that begins with these bytes.
pub parse-serialize :
    (h : BundleHeader)
    → IsHeader h
    → (bytes : Bytes) × (serialize h ≡ some bytes)
      × (length bytes ≡ 96)
      × ((more : Bytes) → parse (bytes ++ more) ≡ ok h)
parse-serialize h v = (layout h zeros, serialize-layout h v, length-layout h v, parse-layout h v)
