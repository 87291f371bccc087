-- ===== src/Bundle/Header.antt =====
-- Sources/UltraLockedFormat/BundleHeader.swift: the public header of 96 bytes.
pub mod Valid
pub mod RoundTrip
pub mod Canonical
mod Tests
use security_core.Common.{
  ℕ, suc, ◌+◌, ◌-◌, ◌*◌, ◌/◌, ◌%◌, ◌^◌, bit_or, Bool, true, ◌&&◌, Option, none, some, List, [], ◌∷◌,
  ◌++◌, Bytes, length, take, drop, get_or, replicate, leb, ◌==◌, if◌then◌else◌, Result, ok, err,
  ◌>>=◌, ◌>>◌, guard, u32, ◌<<<◌,
}
use security_core.Bundle.Limits.{
  BundleError, invalid_header, unsupported_version, unsupported_kdf, truncated, salt_length,
  nonce_length, magic_mismatch, reserved_not_zero, validate_argon2_params, validate_manifest_size,
}

-- "ULOCKED1"
abbrev pub magic : Bytes
magic = 0x55 ∷ 0x4c ∷ 0x4f ∷ 0x43 ∷ 0x4b ∷ 0x45 ∷ 0x44 ∷ 0x31 ∷ []

abbrev pub total_size : ℕ
total_size = 96

abbrev pub kdf_argon2id : ℕ
kdf_argon2id = 1

abbrev pub salt_size : ℕ
salt_size = 16

abbrev pub manifest_nonce_size : ℕ
manifest_nonce_size = 12

pub record BundleHeader : Type 0 where
  pub version : ℕ
  pub kdf_id : ℕ
  pub argon2_time_cost : ℕ
  pub argon2_memory_kib : ℕ
  pub argon2_parallelism : ℕ
  pub salt : Bytes
  pub manifest_nonce : Bytes
  pub manifest_size : ℕ

-- The throwing initializer: it checks the fields of the header that it returns.
unfoldable pub init_header : BundleHeader → Result BundleError BundleHeader
init_header h = do
  guard (h.version == 1) (unsupported_version h.version)
  guard (h.kdf_id == kdf_argon2id) (unsupported_kdf h.kdf_id)
  guard (length h.salt == salt_size) (invalid_header (salt_length (length h.salt)))
  guard (length h.manifest_nonce == manifest_nonce_size)
      (invalid_header (nonce_length (length h.manifest_nonce)))
  validate_argon2_params h.argon2_time_cost h.argon2_memory_kib h.argon2_parallelism
  validate_manifest_size h.manifest_size
  ok h

-- `appendLittleEndian` of a UInt16 and of a UInt32.
abbrev pub le16 : ℕ → Bytes
le16 v = v % 256 ∷ v / 256 % 256 ∷ []

abbrev pub le32 : ℕ → Bytes
le32 v = v % 256 ∷ v / 256 % 256 ∷ v / 65536 % 256 ∷ v / 16777216 % 256 ∷ []

abbrev pub byte_at : Bytes → ℕ → ℕ
byte_at bytes i = get_or bytes i 0

-- `readLittleEndian` at UInt16 and at UInt32.
unfoldable pub read_le16 : Bytes → ℕ → ℕ
read_le16 bytes offset = bit_or (byte_at bytes offset) (byte_at bytes (offset + 1) <<< 8)

unfoldable pub read_le32 : Bytes → ℕ → ℕ
read_le32 bytes offset =
    bit_or
      (bit_or (bit_or (byte_at bytes offset) (byte_at bytes (offset + 1) <<< 8))
        (byte_at bytes (offset + 2) <<< 16))
      (byte_at bytes (offset + 3) <<< 24)

-- `subdata(in: from..<to)`
abbrev pub subdata : Bytes → ℕ → ℕ → Bytes
subdata bytes from to = take (to - from) (drop from bytes)

-- The fields, before the padding.
unfoldable pub header_fields : BundleHeader → Bytes
header_fields h =
    magic
    ++ (le16 h.version
        ++ ((h.kdf_id ∷ [])
            ++ (le32 h.argon2_time_cost
                ++ (le32 h.argon2_memory_kib
                    ++ ((h.argon2_parallelism ∷ [])
                        ++ (h.salt ++ (h.manifest_nonce ++ le32 h.manifest_size)))))))

-- `none` is the trap of the `precondition`.
unfoldable pub serialize : BundleHeader → Option Bytes
serialize h =
    let bytes = header_fields h in
    let padded = bytes ++ replicate (total_size - length bytes) 0 in
    if length padded == total_size then some padded else none

-- `for i in 0..<magic.count`, from the index `i` on.
unfoldable pub check_magic : ℕ → Bytes → Bytes → Result BundleError (Unit {0})
check_magic i [] bytes = ok tt
check_magic i (m ∷ ms) bytes = do
  guard (byte_at bytes i == m) (invalid_header (magic_mismatch i))
  check_magic (i + 1) ms bytes

unfoldable pub all_zero : Bytes → Bool
all_zero [] = true
all_zero (b ∷ bytes) = (b == 0) && all_zero bytes

-- The fields as they stand in 96 bytes.
unfoldable pub header_at : Bytes → BundleHeader
header_at bytes = record {
  version = read_le16 bytes 8;
  kdf_id = byte_at bytes 10;
  argon2_time_cost = read_le32 bytes 11;
  argon2_memory_kib = read_le32 bytes 15;
  argon2_parallelism = byte_at bytes 19;
  salt = subdata bytes 20 36;
  manifest_nonce = subdata bytes 36 48;
  manifest_size = read_le32 bytes 48;
}

-- `parse` from the copy of the first 96 bytes on.
unfoldable pub parse_bytes : Bytes → Result BundleError BundleHeader
parse_bytes bytes = do
  check_magic 0 magic bytes
  guard (all_zero (subdata bytes 52 total_size)) (invalid_header reserved_not_zero)
  init_header (header_at bytes)

unfoldable pub parse : Bytes → Result BundleError BundleHeader
parse input = do
  guard (leb total_size (length input)) (truncated total_size (length input))
  parse_bytes (take total_size input)
