-- ===== src/Bundle/Crypto.antt =====
-- Sources/UltraLockedFormat/Crypto.swift: key derivation and AES-256-GCM. CryptoKit is a parameter,
-- and a key, a nonce and a sealed box are their bytes.
pub mod Laws
use security_core.Common.{
  ℕ, ◌≡◌, Bool, Option, none, some, Bytes, ◌++◌, codes, Result, ok, err, ◌>>=◌, ◌>>◌, guard,
}
use security_core.Bundle.Limits.{BundleError, decryption_failed}
use security_core.Bundle.Failure.{Failure, thrown, crypto_error}

-- What the package calls of CryptoKit. `none` is an error that the library throws.
pub record Cryptography : Type 0 where
  -- key material, info, number of bytes
  pub hkdf : Bytes → Bytes → ℕ → Bytes
  -- AES.GCM.Nonce(data:) accepts the bytes
  pub is_nonce : Bytes → Bool
  -- AES.GCM.SealedBox(nonce:ciphertext:tag:) accepts the parts
  pub is_sealed_box : Bytes → Bytes → Bytes → Bool
  -- key, nonce, plaintext, additional data: ciphertext and tag
  pub seal : Bytes → Bytes → Bytes → Bytes → Option (Bytes × Bytes)
  -- key, nonce, ciphertext, tag, additional data
  pub unseal : Bytes → Bytes → Bytes → Bytes → Bytes → Option Bytes

abbrev pub manifest_key_info : Bytes
manifest_key_info = codes "UltraLocked-Export-v1-Manifest"

abbrev pub item_key_info_prefix : Bytes
item_key_info_prefix = codes "UltraLocked-Export-v1-Item-"

abbrev pub derived_key_size : ℕ
derived_key_size = 32

abbrev pub or_throw {ℓ} : {A : Type ℓ} → Failure → Option A → Result Failure A
or_throw e none = err e
or_throw e (some x) = ok x

pub or_throw-eq-ok {ℓ} :
    {A : Type ℓ} (e : Failure) (r : Option A) {x : A} → or_throw e r ≡ ok x → r ≡ some x
or_throw-eq-ok e none h = cc
or_throw-eq-ok e (some y) h = cc

module _ (c : Cryptography) where
  unfoldable pub derive_manifest_key : Bytes → Bytes
  derive_manifest_key master = c.hkdf master manifest_key_info derived_key_size

  -- The identifier is given by its 16 raw bytes.
  unfoldable pub derive_item_key : Bytes → Bytes → Bytes
  derive_item_key master id = c.hkdf master (item_key_info_prefix ++ id) derived_key_size

  unfoldable pub seal_gcm : Bytes → Bytes → Bytes → Bytes → Result Failure (Bytes × Bytes)
  seal_gcm key nonce plaintext aad = do
    guard (c.is_nonce nonce) crypto_error
    or_throw crypto_error (c.seal key nonce plaintext aad)

  -- Only the opening itself is turned into a BundleError.
  unfoldable pub open_gcm : Bytes → Bytes → Bytes → Bytes → Bytes → Result Failure Bytes
  open_gcm key nonce ciphertext tag aad = do
    guard (c.is_nonce nonce) crypto_error
    guard (c.is_sealed_box nonce ciphertext tag) crypto_error
    or_throw (thrown decryption_failed) (c.unseal key nonce ciphertext tag aad)
