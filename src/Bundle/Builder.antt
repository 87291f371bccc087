-- ===== src/Bundle/Builder.antt =====
-- Sources/UltraLockedFormat/BundleBuilder.swift and ItemContent.swift: the items to export, and the
-- building of a bundle. The calls of the random source are numbered from `call` on.
pub mod Sealed
pub mod Built
pub mod BuiltFrom
pub mod Returned
pub mod Total
use security_core.Common.{
  ℕ, ◌+◌, ◌^◌, ◌==◌, Option, none, some, List, [], ◌∷◌, ◌++◌, map, Bytes, length, ltb, Result, ok,
  err, ◌>>=◌, ◌>>◌,
}
use security_core.Bundle.Limits.{
  validate_item_size, validate_manifest_size, validate_total_file_size,
}
use security_core.Bundle.Failure.{Failure, trapped, attempt, trap_unless}
use security_core.Bundle.Crypto.{Cryptography, or_throw}
use security_core.Bundle.Header.{BundleHeader, init_header, serialize, total_size, kdf_argon2id}
use security_core.Bundle.ItemRecord.{tag_size, encrypt_item}
use security_core.Bundle.Random.{RandomSource, random_bytes}
use security_core.Bundle.KeyDerivation.{Parameters, HashRaw, derive_key}
use security_core.Bundle.Manifest.{
  ItemDescriptor, Manifest, Coder, init_descriptor, init_manifest, encode_json, encrypt_manifest,
}

pub record ItemContent (D : Type 0) : Type 0 where
  pub id : Bytes
  pub name : Bytes
  pub mime_type : Bytes
  pub plaintext : Bytes
  pub created_at : D
  pub modified_at : D
  pub ttl_seconds : Option ℕ
  pub ttl_origin_epoch : Option D

pub record BundleBuilder (D : Type 0) : Type 0 where
  pub items : List (ItemContent D)
  pub parameters : Parameters
  pub export_label : Option Bytes
  pub exported_at : D

abbrev pub concat : List Bytes → Bytes
concat [] = []
concat (x ∷ xs) = x ++ concat xs

abbrev pub new_header : Parameters → Bytes → Bytes → ℕ → BundleHeader
new_header p salt manifest_nonce size = record {
  version = 1;
  kdf_id = kdf_argon2id;
  argon2_time_cost = p.time_cost;
  argon2_memory_kib = p.memory_kib;
  argon2_parallelism = p.parallelism;
  salt = salt;
  manifest_nonce = manifest_nonce;
  manifest_size = size;
}

module _ {D : Type 0} where
  unfoldable pub add : BundleBuilder D → ItemContent D → BundleBuilder D
  add b item = record b { items = b.items ++ (item ∷ []) }

  abbrev pub describe : ItemContent D → Bytes → ItemDescriptor D
  describe item nonce = record {
    id = item.id;
    name = item.name;
    mime_type = item.mime_type;
    size_bytes = length item.plaintext;
    created_at = item.created_at;
    modified_at = item.modified_at;
    ttl_seconds = item.ttl_seconds;
    ttl_origin_epoch = item.ttl_origin_epoch;
    item_nonce = nonce;
    item_size = length item.plaintext + tag_size;
  }

  -- Step 1. The arrays `descriptors` and `itemNonces` grow together, as one list of pairs.
  unfoldable pub stage_items :
      RandomSource → ℕ → List (ItemContent D) → Result Failure (List (ItemDescriptor D × Bytes))
  stage_items source call [] = ok []
  stage_items source call (item ∷ items) = do
    nonce ← random_bytes source call 12
    attempt (validate_item_size (length item.plaintext + tag_size))
    descriptor ← attempt (init_descriptor (describe item nonce))
    rest ← stage_items source (call + 1) items
    ok ((descriptor, nonce) ∷ rest)

  abbrev pub descriptors : List (ItemDescriptor D × Bytes) → List (ItemDescriptor D)
  descriptors [] = []
  descriptors (s ∷ staged) = s.0 ∷ descriptors staged

  -- Step 5: the records and the sum of their lengths, from the sum `total` on, which is a UInt64.
  unfoldable pub encrypt_items :
      Cryptography
      → Bytes
      → Bytes
      → List (ItemContent D)
      → List (ItemDescriptor D × Bytes)
      → ℕ
      → Result Failure (List Bytes × ℕ)
  encrypt_items c master header [] staged total = ok ([], total)
  encrypt_items c master header (item ∷ items) [] total = err trapped
  encrypt_items c master header (item ∷ items) ((descriptor, nonce) ∷ staged) total = do
    bytes ← encrypt_item c item.plaintext master item.id nonce header
    trap_unless (length bytes == descriptor.item_size)
    trap_unless (ltb (total + length bytes) (2 ^ 64))
    rest ← encrypt_items c master header items staged (total + length bytes)
    ok (bytes ∷ rest.0, rest.1)

  -- Steps 4 to 6, from the staged items, the manifest, its size and the header on.
  unfoldable pub seal_bundle :
      Cryptography
      → Coder D
      → BundleBuilder D
      → Bytes
      → Bytes
      → List (ItemDescriptor D × Bytes)
      → Manifest D
      → ℕ
      → Bytes
      → Result Failure Bytes
  seal_bundle c j b master manifest_nonce staged manifest size header = do
    sealed ← encrypt_manifest c j manifest master manifest_nonce header
    trap_unless (length sealed.0 + length sealed.1 == size)
    records ← encrypt_items c master header b.items staged 0
    trap_unless (ltb (total_size + size + records.1) (2 ^ 64))
    attempt (validate_total_file_size (total_size + size + records.1))
    let output = header ++ (sealed.0 ++ (sealed.1 ++ concat records.0))
    trap_unless (length output == total_size + size + records.1)
    ok output

  -- `UInt32(_:)` traps on a larger number, `serialize` where its size is wrong.
  unfoldable pub build_bundle :
      Cryptography
      → Coder D
      → RandomSource
      → ℕ
      → BundleBuilder D
      → Bytes
      → Bytes
      → Bytes
      → Result Failure Bytes
  build_bundle c j source call b master salt manifest_nonce = do
    staged ← stage_items source call b.items
    let manifest = init_manifest b.exported_at b.export_label (descriptors staged)
    plaintext ← encode_json j manifest
    let size = length plaintext + tag_size
    attempt (validate_manifest_size size)
    trap_unless (ltb size (2 ^ 32))
    header ← attempt (init_header (new_header b.parameters salt manifest_nonce size))
    header_bytes ← or_throw trapped (serialize header)
    seal_bundle c j b master manifest_nonce staged manifest size header_bytes

  unfoldable pub build :
      Cryptography
      → Coder D
      → HashRaw
      → RandomSource
      → ℕ
      → BundleBuilder D
      → Bytes
      → Result Failure Bytes
  build c j hash_raw source call b passphrase = do
    salt ← random_bytes source call 16
    manifest_nonce ← random_bytes source (call + 1) 12
    master ← derive_key hash_raw passphrase salt b.parameters
    build_bundle c j source (call + 2) b master salt manifest_nonce
