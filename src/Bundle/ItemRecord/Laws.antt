-- ===== src/Bundle/ItemRecord/Laws.antt =====
-- Encryption and decryption of one item.
use security_core.Common.{
  ◌+◌, ◌-◌, ◌<◌, ◌^◌, ◌≡◌, ◌↔◌, ap, subst, Bytes, ◌++◌, length, length-append, take, drop,
  take-append-drop, leb, le→leb, ok, >>=-eq-ok, guard-eq-ok, arith,
}
use security_core.Bundle.Crypto.{Cryptography, derive_item_key, seal_gcm}
use security_core.Bundle.Crypto.Laws.{
  IsCryptography, cut_tag, length-derive_item_key, seal_gcm_total, length-seal_gcm,
  open_gcm-seal_gcm, seal_gcm-open_gcm,
}
use security_core.Bundle.ItemRecord.{encrypt_item, decrypt_item}

module _ (c : Cryptography) (l : IsCryptography c) where
  -- With a nonce of 12 bytes an item of less than 2^32 bytes is encrypted, to a record that is 16
  -- bytes longer.
  pub encrypt_item_total :
      (p master id nonce header : Bytes)
      → length nonce ≡ 12
      → length p < 2 ^ 32
      → (bytes : Bytes) × (encrypt_item c p master id nonce header ≡ ok bytes)
        × (length bytes ≡ length p + 16)
  unfolding encrypt_item
  encrypt_item_total p master id nonce header n short =
      let (ct, tag, e, lc, lt) =
        seal_gcm_total c l (derive_item_key c master id) nonce p (header ++ id)
          (length-derive_item_key c l master id) n short in
      (ct ++ tag, rw e, omega (arith, length-append ct tag))

  -- The record that the encryption gives is decrypted to the plaintext, with the same key,
  -- identifier, nonce and header.
  pub decrypt_item-encrypt_item :
      (p master id nonce header bytes : Bytes)
      → encrypt_item c p master id nonce header ≡ ok bytes
      → decrypt_item c bytes master id nonce header ≡ ok p
  unfolding encrypt_item decrypt_item
  decrypt_item-encrypt_item p master id nonce header bytes h =
      let ((ct, tag), e, q) =
        >>=-eq-ok (seal_gcm c (derive_item_key c master id) nonce p (header ++ id)) _ h in
      let key = derive_item_key c master id in
      let (lc, lt) = length-seal_gcm c l key nonce p (header ++ id) ct tag e in
      let (front, back) = cut_tag ct tag lt in
      let long = le→leb 16 (length (ct ++ tag)) (omega (arith, length-append ct tag)) in
      let whole : ct ++ tag ≡ bytes = cc (q) in
      subst (λ b. decrypt_item c b master id nonce header ≡ ok p) whole
        (rw (long, front, back) (open_gcm-seal_gcm c l key nonce p (header ++ id) ct tag e))

  -- Fail closed: what is decrypted is the plaintext whose encryption is the record.
  pub encrypt_item-decrypt_item :
      (p master id nonce header bytes : Bytes)
      → decrypt_item c bytes master id nonce header ≡ ok p
      → encrypt_item c p master id nonce header ≡ ok bytes
  unfolding encrypt_item decrypt_item
  encrypt_item-decrypt_item p master id nonce header bytes h =
      let (long, opened) = guard-eq-ok (leb 16 (length bytes)) _ _ h in
      let cut = length bytes - 16 in
      let sealed =
        seal_gcm-open_gcm c l (derive_item_key c master id) nonce p (header ++ id) (take cut bytes)
          (drop cut bytes) opened in
      rw sealed (ap ok (take-append-drop cut bytes))

  -- A record is decrypted to a plaintext exactly if it is the encryption of this plaintext with the
  -- same key, identifier, nonce and header.
  pub decrypt_item_iff :
      (p master id nonce header bytes : Bytes)
      → (decrypt_item c bytes master id nonce header ≡ ok p)
        ↔ (encrypt_item c p master id nonce header ≡ ok bytes)
  decrypt_item_iff p master id nonce header bytes = (
    encrypt_item-decrypt_item p master id nonce header bytes,
    decrypt_item-encrypt_item p master id nonce header bytes,
  )
