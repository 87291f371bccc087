-- ===== src/Bundle/Manifest.antt =====
-- Sources/UltraLockedFormat/Manifest.swift: the item descriptors and the manifest, their
-- validation, their JSON form and their encryption. A date is a value of the type `D`, a text is its
-- UTF-8 bytes, an identifier its 16 raw bytes.
pub mod Valid
pub mod Laws
use security_core.Common.{
  ℕ, ℤ, pos, negsuc, Bool, true, false, Option, none, some, List, [], ◌∷◌, Bytes, length, contains,
  ◌==◌, not, Result, ok, err, ◌>>=◌, ◌>>◌, guard,
}
use security_core.Bundle.Limits.{
  BundleError, parameter_out_of_bounds, manifest_parse_failed, item_nonce, nonce_size, ttl_fields,
  not_json, schema_version, duplicate_id, validate_item_size,
}
use security_core.Bundle.Failure.{Failure, thrown, encoding_error, attempt}
use security_core.Bundle.Crypto.{Cryptography, derive_manifest_key, seal_gcm, open_gcm}

pub record ItemDescriptor (D : Type 0) : Type 0 where
  pub id : Bytes
  pub name : Bytes
  pub mime_type : Bytes
  pub size_bytes : ℕ
  pub created_at : D
  pub modified_at : D
  pub ttl_seconds : Option ℕ
  pub ttl_origin_epoch : Option D
  pub item_nonce : Bytes
  pub item_size : ℕ

pub record Manifest (D : Type 0) : Type 0 where
  pub schema_version : ℤ
  pub exported_at : D
  pub export_label : Option Bytes
  pub items : List (ItemDescriptor D)

-- JSONEncoder and JSONDecoder with the settings of the source; `none` is an error that they throw.
pub record Coder (D : Type 0) : Type 0 where
  pub encode : Manifest D → Option Bytes
  pub decode : Bytes → Option (Manifest D)

abbrev pub both_or_none {ℓ κ} : {A : Type ℓ} {B : Type κ} → Option A → Option B → Bool
both_or_none none none = true
both_or_none none (some b) = false
both_or_none (some a) none = false
both_or_none (some a) (some b) = true

abbrev pub is_current : ℤ → Bool
is_current (pos n) = n == 1
is_current (negsuc n) = false

abbrev encoded : Option Bytes → Result Failure Bytes
encoded none = err encoding_error
encoded (some bytes) = ok bytes

module _ {D : Type 0} where
  unfoldable pub validate_ttl_consistency : ItemDescriptor D → Result BundleError (Unit {0})
  validate_ttl_consistency d =
      guard (both_or_none d.ttl_seconds d.ttl_origin_epoch)
        (manifest_parse_failed (ttl_fields d.id))

  -- The throwing initializer: it checks the fields of the descriptor that it returns.
  unfoldable pub init_descriptor : ItemDescriptor D → Result BundleError (ItemDescriptor D)
  init_descriptor d = do
    guard (length d.item_nonce == 12) (parameter_out_of_bounds (item_nonce (length d.item_nonce)))
    validate_item_size d.item_size
    validate_ttl_consistency d
    ok d

  -- `validate` of a descriptor.
  unfoldable pub validate_descriptor : ItemDescriptor D → Result BundleError (Unit {0})
  validate_descriptor d = do
    guard (length d.item_nonce == 12) (manifest_parse_failed (nonce_size d.id))
    validate_item_size d.item_size
    validate_ttl_consistency d

  unfoldable pub validate_items : List (ItemDescriptor D) → Result BundleError (Unit {0})
  validate_items [] = ok tt
  validate_items (d ∷ items) = do validate_descriptor d; validate_items items

  -- The loop over `seen`, a set that is kept as a list.
  unfoldable pub validate_unique :
      List Bytes → List (ItemDescriptor D) → Result BundleError (Unit {0})
  validate_unique seen [] = ok tt
  validate_unique seen (d ∷ items) = do
    guard (not (contains seen d.id)) (manifest_parse_failed (duplicate_id d.id))
    validate_unique (d.id ∷ seen) items

  -- `validate` of a manifest.
  unfoldable pub validate : Manifest D → Result BundleError (Unit {0})
  validate m = do
    guard (is_current m.schema_version) (manifest_parse_failed (schema_version m.schema_version))
    validate_items m.items
    validate_unique [] m.items

  -- The initializer.
  abbrev pub init_manifest : D → Option Bytes → List (ItemDescriptor D) → Manifest D
  init_manifest exported_at export_label items = record {
    schema_version = pos 1;
    exported_at = exported_at;
    export_label = export_label;
    items = items;
  }

  abbrev decoded : Option (Manifest D) → Result BundleError (Manifest D)
  decoded none = err (manifest_parse_failed not_json)
  decoded (some m) = ok m

  unfoldable pub encode_json : Coder D → Manifest D → Result Failure Bytes
  encode_json j m = encoded (j.encode m)

  unfoldable pub decode_json : Coder D → Bytes → Result BundleError (Manifest D)
  decode_json j bytes = do m ← decoded (j.decode bytes); validate m; ok m

  -- manifest, master key, nonce, header: ciphertext and tag
  unfoldable pub encrypt_manifest :
      Cryptography → Coder D → Manifest D → Bytes → Bytes → Bytes → Result Failure (Bytes × Bytes)
  encrypt_manifest c j m master nonce header = do
    plaintext ← encode_json j m
    seal_gcm c (derive_manifest_key c master) nonce plaintext header

  -- ciphertext, tag, master key, nonce, header
  unfoldable pub decrypt_manifest :
      Cryptography → Coder D → Bytes → Bytes → Bytes → Bytes → Bytes → Result Failure (Manifest D)
  decrypt_manifest c j ciphertext tag master nonce header = do
    plaintext ← open_gcm c (derive_manifest_key c master) nonce ciphertext tag header
    attempt (decode_json j plaintext)
