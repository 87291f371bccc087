-- ===== src/Bundle/Limits.antt =====
-- Sources/UltraLockedFormat/BundleError.swift and BundleLimits.swift: the errors, the hard caps
-- and their validators.
-- A message, which is text for the reader of a log, is modelled by what it is about.
use security_core.Common.{
  ℕ, ℤ, ◌*◌, ◌≤◌, ◌≡◌, ◌↔◌, Bytes, arith, leb, Result, ok, ◌>>◌, guard, ◌&&◌,
}

pub data HeaderFault : Type 0 where
  salt_length nonce_length : ℕ → HeaderFault
  magic_mismatch : ℕ → HeaderFault
  reserved_not_zero : HeaderFault

pub data Parameter : Type 0 where
  time_cost memory_kib parallelism manifest_size item_size total_file_size : ℕ → Parameter
  item_nonce salt_size : ℕ → Parameter
  empty_passphrase not_unlocked : Parameter
  hash_failed : ℕ → Parameter

pub data ManifestFault : Type 0 where
  not_json : ManifestFault
  schema_version : ℤ → ManifestFault
  nonce_size ttl_fields duplicate_id unknown_item : Bytes → ManifestFault
  sizes_exceed : ℕ → ℕ → ManifestFault

pub data BundleError : Type 0 where
  invalid_header : HeaderFault → BundleError
  unsupported_version unsupported_kdf : ℕ → BundleError
  parameter_out_of_bounds : Parameter → BundleError
  decryption_failed : BundleError
  manifest_parse_failed : ManifestFault → BundleError
  truncated : ℕ → ℕ → BundleError

abbrev pub argon2_time_cost_min : ℕ
argon2_time_cost_min = 1

abbrev pub argon2_time_cost_max : ℕ
argon2_time_cost_max = 10

abbrev pub argon2_memory_kib_min : ℕ
argon2_memory_kib_min = 8

abbrev pub argon2_memory_kib_max : ℕ
argon2_memory_kib_max = 256 * 1024

abbrev pub argon2_parallelism_min : ℕ
argon2_parallelism_min = 1

abbrev pub argon2_parallelism_max : ℕ
argon2_parallelism_max = 8

abbrev pub manifest_size_min : ℕ
manifest_size_min = 16

abbrev pub manifest_size_max : ℕ
manifest_size_max = 1 * 1024 * 1024

abbrev pub item_size_min : ℕ
item_size_min = 16

abbrev pub item_size_max : ℕ
item_size_max = 250 * 1024 * 1024

abbrev pub total_file_size_max : ℕ
total_file_size_max = 2 * 1024 * 1024 * 1024

unfoldable pub validate_argon2_params : ℕ → ℕ → ℕ → Result BundleError (Unit {0})
validate_argon2_params t m p = do
  guard (leb argon2_time_cost_min t && leb t argon2_time_cost_max)
      (parameter_out_of_bounds (time_cost t))
  guard (leb argon2_memory_kib_min m && leb m argon2_memory_kib_max)
      (parameter_out_of_bounds (memory_kib m))
  guard (leb argon2_parallelism_min p && leb p argon2_parallelism_max)
      (parameter_out_of_bounds (parallelism p))

-- Both overloads: the one for a UInt32 widens its argument.
unfoldable pub validate_manifest_size : ℕ → Result BundleError (Unit {0})
validate_manifest_size size = do
  guard (leb manifest_size_min size) (parameter_out_of_bounds (manifest_size size))
  guard (leb size manifest_size_max) (parameter_out_of_bounds (manifest_size size))

unfoldable pub validate_item_size : ℕ → Result BundleError (Unit {0})
validate_item_size size = do
  guard (leb item_size_min size) (parameter_out_of_bounds (item_size size))
  guard (leb size item_size_max) (parameter_out_of_bounds (item_size size))

unfoldable pub validate_total_file_size : ℕ → Result BundleError (Unit {0})
validate_total_file_size size =
    guard (leb size total_file_size_max) (parameter_out_of_bounds (total_file_size size))

-- The ranges that docs/vault-format.md lists.
abbrev pub AreParams : ℕ → ℕ → ℕ → Type 0
AreParams t m p = (1 ≤ t) × (t ≤ 10) × (8 ≤ m) × (m ≤ 262144) × (1 ≤ p) × (p ≤ 8)

pub validate_argon2_params_iff :
    (t m p : ℕ) → (validate_argon2_params t m p ≡ ok tt) ↔ AreParams t m p
unfolding validate_argon2_params
validate_argon2_params_iff t m p = ground arith

pub validate_manifest_size_iff :
    (size : ℕ) → (validate_manifest_size size ≡ ok tt) ↔ ((16 ≤ size) × (size ≤ 1048576))
unfolding validate_manifest_size
validate_manifest_size_iff size = ground arith

pub validate_item_size_iff :
    (size : ℕ) → (validate_item_size size ≡ ok tt) ↔ ((16 ≤ size) × (size ≤ 262144000))
unfolding validate_item_size
validate_item_size_iff size = ground arith

pub validate_total_file_size_iff :
    (size : ℕ) → (validate_total_file_size size ≡ ok tt) ↔ (size ≤ 2147483648)
unfolding validate_total_file_size
validate_total_file_size_iff size = ground arith
