-- ===== src/Bundle/ItemRecord.antt =====
-- Sources/UltraLockedFormat/ItemRecord.swift: an item is kept as its ciphertext with the tag behind.
pub mod Laws
use security_core.Common.{
  ℕ, ◌-◌, ◌++◌, Bytes, length, take, drop, leb, Result, ok, err, ◌>>=◌, ◌>>◌, guard,
}
use security_core.Bundle.Limits.{truncated}
use security_core.Bundle.Failure.{Failure, thrown}
use security_core.Bundle.Crypto.{Cryptography, derive_item_key, seal_gcm, open_gcm}

abbrev pub tag_size : ℕ
tag_size = 16

module _ (c : Cryptography) where
  -- plaintext, master key, identifier, nonce, header
  unfoldable pub encrypt_item : Bytes → Bytes → Bytes → Bytes → Bytes → Result Failure Bytes
  encrypt_item plaintext master id nonce header = do
    sealed ← seal_gcm c (derive_item_key c master id) nonce plaintext (header ++ id)
    ok (sealed.0 ++ sealed.1)

  -- record, master key, identifier, nonce, header
  unfoldable pub decrypt_item : Bytes → Bytes → Bytes → Bytes → Bytes → Result Failure Bytes
  decrypt_item bytes master id nonce header = do
    guard (leb tag_size (length bytes)) (thrown (truncated tag_size (length bytes)))
    let tag_offset = length bytes - tag_size
    open_gcm c (derive_item_key c master id) nonce (take tag_offset bytes) (drop tag_offset bytes)
        (header ++ id)
