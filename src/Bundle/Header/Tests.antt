-- ===== src/Bundle/Header/Tests.antt =====
-- A header, and the errors of damaged ones.
use security_core.Common.{
  ◌≡◌, refl, ◌≤◌, arith, some, [], ◌∷◌, ◌++◌, Bytes, length, take, replicate, AreBytes,
  are_bytes-AreBytes, ok, err,
}
use security_core.Bundle.Limits.{
  validate_argon2_params, validate_manifest_size, truncated, invalid_header, magic_mismatch,
}
use security_core.Bundle.Header.{
  BundleHeader, magic, serialize, parse, parse_bytes, check_magic, all_zero, header_at, init_header,
  read_le16, read_le32,
}
use security_core.Bundle.Header.Valid.{IsHeader}
use security_core.Bundle.Header.RoundTrip.{parse-serialize}
use security_core.Bundle.Header.Canonical.{serialize-parse}

abbrev sample_header : BundleHeader
sample_header = record {
  version = 1;
  kdf_id = 1;
  argon2_time_cost = 3;
  argon2_memory_kib = 65536;
  argon2_parallelism = 4;
  salt = replicate 16 17;
  manifest_nonce = replicate 12 34;
  manifest_size = 300;
}

sample_header-IsHeader : IsHeader sample_header
sample_header-IsHeader = record {
  version_one = refl;
  argon2id = refl;
  salt_16 = refl;
  nonce_12 = refl;
  params = (omega arith, omega arith, omega arith, omega arith, omega arith, omega arith);
  size_range = (omega arith, omega arith);
}

parse-serialize_example :
    (bytes : Bytes) × (serialize sample_header ≡ some bytes)
    × (length bytes ≡ 96)
    × ((more : Bytes) → parse (bytes ++ more) ≡ ok sample_header)
parse-serialize_example = parse-serialize sample_header sample_header-IsHeader

-- The 96 bytes of the sample and two of the manifest.
abbrev sample_file : Bytes
sample_file =
    magic
    ++ (1 ∷ 0 ∷ 1 ∷ 3 ∷ 0 ∷ 0 ∷ 0 ∷ 0 ∷ 0 ∷ 1 ∷ 0 ∷ 4 ∷ [])
    ++ replicate 16 17
    ++ replicate 12 34
    ++ (44 ∷ 1 ∷ 0 ∷ 0 ∷ [])
    ++ replicate 44 0
    ++ (9 ∷ 9 ∷ [])

parse_sample : parse sample_file ≡ ok sample_header
unfolding parse parse_bytes check_magic all_zero header_at init_header read_le16 read_le32
    validate_argon2_params validate_manifest_size
parse_sample = refl

sample_file-AreBytes : AreBytes sample_file
sample_file-AreBytes = are_bytes-AreBytes sample_file refl

serialize-parse_example :
    IsHeader sample_header
    × (96 ≤ length sample_file)
    × (serialize sample_header ≡ some (take 96 sample_file))
serialize-parse_example =
    serialize-parse sample_file sample_header sample_file-AreBytes parse_sample

-- A file that is too short, and one that does not begin with the magic bytes.
parse_truncated : parse (take 95 sample_file) ≡ err (truncated 96 95)
unfolding parse
parse_truncated = refl

parse_magic : parse (0 ∷ sample_file) ≡ err (invalid_header (magic_mismatch 0))
unfolding parse parse_bytes check_magic
parse_magic = refl
