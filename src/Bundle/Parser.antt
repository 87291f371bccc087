-- ===== src/Bundle/Parser.antt =====
-- Sources/UltraLockedFormat/BundleParser.swift: the parser, locked or unlocked. The methods that
-- change it give the new parser and what the call returns.
pub mod Sizes
pub mod Open
pub mod Located
pub mod Delivered
pub mod RoundTrip
pub mod Platforms
pub mod Fits
pub mod States
pub mod Authentic
pub mod Vault
pub mod Refinement
mod Tests
use security_core.Common.{
  ℕ, zero, suc, ◌+◌, ◌-◌, ◌^◌, Option, none, some, List, [], ◌∷◌, Bytes, bytes_eq, length, take,
  drop, leb, ltb, if◌then◌else◌, Result, ok, err, ◌>>=◌, ◌>>◌, guard,
}
use security_core.Bundle.Limits.{
  BundleError, parameter_out_of_bounds, manifest_parse_failed, truncated, not_unlocked,
  unknown_item, sizes_exceed, validate_total_file_size,
}
use security_core.Bundle.Failure.{Failure, thrown, trapped, attempt, trap_unless}
use security_core.Bundle.Crypto.{Cryptography}
use security_core.Bundle.Header.{BundleHeader, parse, subdata, total_size}
use security_core.Bundle.ItemRecord.{tag_size, decrypt_item}
use security_core.Bundle.KeyDerivation.{Parameters, HashRaw, init_parameters, derive_key}
use security_core.Bundle.Manifest.{ItemDescriptor, Manifest, Coder, decrypt_manifest}

pub record BundleParser (D : Type 0) : Type 0 where
  pub header : BundleHeader
  pub file : Bytes
  pub header_bytes : Bytes
  pub master_key : Option Bytes
  pub cached_manifest : Option (Manifest D)

module _ {D : Type 0} where
  pub file_size : BundleParser D → ℕ
  file_size p = length p.file

  pub init_parser : Bytes → Result Failure (BundleParser D)
  init_parser file = do
    attempt (validate_total_file_size (length file))
    header ← attempt (parse file)
    guard (leb (total_size + header.manifest_size) (length file))
        (thrown (truncated (total_size + header.manifest_size) (length file)))
    ok (record {
      header = header;
      file = file;
      header_bytes = subdata file 0 total_size;
      master_key = none;
      cached_manifest = none;
    })

  -- The sum of the item sizes from `total` on; it traps from `limit` on.
  pub add_sizes : ℕ → ℕ → List (ItemDescriptor D) → Result Failure ℕ
  add_sizes limit total [] = ok total
  add_sizes limit total (d ∷ items) = do
    trap_unless (ltb (total + d.item_size) limit)
    add_sizes limit (total + d.item_size) items

  abbrev pub manifest_end : BundleParser D → ℕ
  manifest_end p = total_size + p.header.manifest_size

  -- `unlockWithKey` up to its assignments.
  pub read_manifest : Cryptography → Coder D → BundleParser D → Bytes → Result Failure (Manifest D)
  read_manifest c j p key = do
    trap_unless (leb (manifest_end p) (length p.file))
    let bytes = subdata p.file total_size (manifest_end p)
    guard (leb tag_size (length bytes)) (thrown (truncated tag_size (length bytes)))
    let tag_offset = length bytes - tag_size
    m ←
        decrypt_manifest c j (take tag_offset bytes) (drop tag_offset bytes) key
          p.header.manifest_nonce p.header_bytes
    let budget = length p.file - manifest_end p
    total ← add_sizes (2 ^ 64) 0 m.items
    guard (leb total budget) (thrown (manifest_parse_failed (sizes_exceed total budget)))
    ok m

  -- A call that throws leaves the parser as it is.
  abbrev pub keep_unlocked :
      BundleParser D
      → Bytes
      → Result Failure (Manifest D)
      → BundleParser D × Result Failure (Manifest D)
  keep_unlocked p key (ok m) = (record p { master_key = some key; cached_manifest = some m }, ok m)
  keep_unlocked p key (err e) = (p, err e)

  pub unlock_with_key :
      Cryptography → Coder D → BundleParser D → Bytes → BundleParser D × Result Failure (Manifest D)
  unlock_with_key c j p key = keep_unlocked p key (read_manifest c j p key)

  -- The key of a passphrase, with the parameters and the salt of the header.
  pub header_key : HashRaw → BundleParser D → Bytes → Result Failure Bytes
  header_key hash_raw p passphrase = do
    parameters ← init_parameters (record {
      time_cost = p.header.argon2_time_cost;
      memory_kib = p.header.argon2_memory_kib;
      parallelism = p.header.argon2_parallelism;
    })
    derive_key hash_raw passphrase p.header.salt parameters

  abbrev pub unlock_by :
      Cryptography
      → Coder D
      → BundleParser D
      → Result Failure Bytes
      → BundleParser D × Result Failure (Manifest D)
  unlock_by c j p (ok key) = unlock_with_key c j p key
  unlock_by c j p (err e) = (p, err e)

  pub unlock :
      Cryptography
      → Coder D
      → HashRaw
      → BundleParser D
      → Bytes
      → BundleParser D × Result Failure (Manifest D)
  unlock c j hash_raw p passphrase = unlock_by c j p (header_key hash_raw p passphrase)

  pub lock : BundleParser D → BundleParser D
  lock p = record p { master_key = none; cached_manifest = none }

  abbrev pub shifted : Option (ℕ × ItemDescriptor D) → Option (ℕ × ItemDescriptor D)
  shifted none = none
  shifted (some (i, d)) = some (suc i, d)

  -- `firstIndex(where:)`, with the descriptor at the index.
  pub first_index : Bytes → List (ItemDescriptor D) → Option (ℕ × ItemDescriptor D)
  first_index id [] = none
  first_index id (d ∷ items) =
      let rest = first_index id items in if bytes_eq d.id id then some (zero, d) else shifted rest

  -- From the offset of the first item on. An offset is an Int.
  pub decrypt_at :
      Cryptography
      → BundleParser D
      → Bytes
      → List (ItemDescriptor D)
      → ℕ × ItemDescriptor D
      → Result Failure Bytes
  decrypt_at c p key items (index, descriptor) = do
    offset ← add_sizes (2 ^ 63) (manifest_end p) (take index items)
    trap_unless (ltb (offset + descriptor.item_size) (2 ^ 63))
    let record_end = offset + descriptor.item_size
    guard (leb record_end (length p.file)) (thrown (truncated record_end (length p.file)))
    decrypt_item c (subdata p.file offset record_end) key descriptor.id descriptor.item_nonce
        p.header_bytes

  abbrev pub decrypt_found :
      Cryptography
      → BundleParser D
      → Bytes
      → Bytes
      → List (ItemDescriptor D)
      → Option (ℕ × ItemDescriptor D)
      → Result Failure Bytes
  decrypt_found c p key id items none = err (thrown (manifest_parse_failed (unknown_item id)))
  decrypt_found c p key id items (some found) = decrypt_at c p key items found

  abbrev pub decrypt_unlocked :
      Cryptography
      → BundleParser D
      → ItemDescriptor D
      → Option Bytes
      → Option (Manifest D)
      → Result Failure Bytes
  decrypt_unlocked c p item none m = err (thrown (parameter_out_of_bounds not_unlocked))
  decrypt_unlocked c p item (some key) none = err (thrown (parameter_out_of_bounds not_unlocked))
  decrypt_unlocked c p item (some key) (some m) =
      decrypt_found c p key item.id m.items (first_index item.id m.items)

  pub decrypt : Cryptography → BundleParser D → ItemDescriptor D → Result Failure Bytes
  decrypt c p item = decrypt_unlocked c p item p.master_key p.cached_manifest
