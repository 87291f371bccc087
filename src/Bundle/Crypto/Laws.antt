-- ===== src/Bundle/Crypto/Laws.antt =====
-- What the package relies on of CryptoKit, and what `seal_gcm` and `open_gcm` make of it.
use security_core.Common.{
  ◌-◌, ◌++◌, take, drop, take-append, drop-append, length-append, ℕ, ◌≤◌, ◌<◌, ◌^◌, ◌≡◌, true, some,
  Bytes, length, ok, arith,
}
use security_core.Bundle.Crypto.{
  Cryptography, derive_manifest_key, derive_item_key, seal_gcm, open_gcm,
}

-- The documented behaviour: HKDF fills its output, a nonce of 12 bytes and a tag of 16 bytes are
-- accepted, a seal under a key of 32 bytes succeeds with a ciphertext as long as the plaintext, and
-- opening is the inverse of sealing, in both directions since AES-GCM is deterministic.
pub record IsCryptography (c : Cryptography) : Type 0 where
  pub length-hkdf : (key info : Bytes) (n : ℕ) → n ≤ 8160 → length (c.hkdf key info n) ≡ n
  pub nonce_12 : (nonce : Bytes) → length nonce ≡ 12 → c.is_nonce nonce ≡ true
  pub tag_16 :
      (nonce ciphertext tag : Bytes)
      → c.is_nonce nonce ≡ true
      → length tag ≡ 16
      → c.is_sealed_box nonce ciphertext tag ≡ true
  pub seal_total :
      (key nonce plaintext aad : Bytes)
      → length key ≡ 32
      → c.is_nonce nonce ≡ true
      → length plaintext < 2 ^ 32
      → (ciphertext : Bytes) × (tag : Bytes) × (c.seal key nonce plaintext aad
          ≡ some (ciphertext, tag))
  pub length-seal :
      (key nonce plaintext aad ciphertext tag : Bytes)
      → c.seal key nonce plaintext aad ≡ some (ciphertext, tag)
      → (length ciphertext ≡ length plaintext) × (length tag ≡ 16)
  pub unseal-seal :
      (key nonce plaintext aad ciphertext tag : Bytes)
      → c.seal key nonce plaintext aad ≡ some (ciphertext, tag)
      → c.unseal key nonce ciphertext tag aad ≡ some plaintext
  pub seal-unseal :
      (key nonce plaintext aad ciphertext tag : Bytes)
      → c.unseal key nonce ciphertext tag aad ≡ some plaintext
      → c.seal key nonce plaintext aad ≡ some (ciphertext, tag)

module _ (c : Cryptography) (l : IsCryptography c) where
  pub seal_gcm_total :
      (key nonce plaintext aad : Bytes)
      → length key ≡ 32
      → length nonce ≡ 12
      → length plaintext < 2 ^ 32
      → (ciphertext : Bytes) × (tag : Bytes) × (seal_gcm c key nonce plaintext aad
          ≡ ok (ciphertext, tag))
        × (length ciphertext ≡ length plaintext)
        × (length tag ≡ 16)
  unfolding seal_gcm
  seal_gcm_total key nonce p aad k n short =
      let good = l.nonce_12 nonce n in
      let (ct, tag, e) = l.seal_total key nonce p aad k good short in
      let (lc, lt) = l.length-seal key nonce p aad ct tag e in (ct, tag, rw (good, e), lc, lt)

  pub seal_gcm-eq-ok :
      (key nonce p aad ct tag : Bytes)
      → seal_gcm c key nonce p aad ≡ ok (ct, tag)
      → (c.is_nonce nonce ≡ true) × (c.seal key nonce p aad ≡ some (ct, tag))
  unfolding seal_gcm
  seal_gcm-eq-ok key nonce p aad ct tag h = ground arith

  pub length-seal_gcm :
      (key nonce p aad ct tag : Bytes)
      → seal_gcm c key nonce p aad ≡ ok (ct, tag)
      → (length ct ≡ length p) × (length tag ≡ 16)
  length-seal_gcm key nonce p aad ct tag h =
      l.length-seal key nonce p aad ct tag (seal_gcm-eq-ok key nonce p aad ct tag h).1

  pub open_gcm-seal_gcm :
      (key nonce p aad ct tag : Bytes)
      → seal_gcm c key nonce p aad ≡ ok (ct, tag)
      → open_gcm c key nonce ct tag aad ≡ ok p
  unfolding open_gcm
  open_gcm-seal_gcm key nonce p aad ct tag h =
      let (good, e) = seal_gcm-eq-ok key nonce p aad ct tag h in
      let (lc, lt) = l.length-seal key nonce p aad ct tag e in
      rw (good, l.tag_16 nonce ct tag good lt, l.unseal-seal key nonce p aad ct tag e)

  pub seal_gcm-open_gcm :
      (key nonce p aad ct tag : Bytes)
      → open_gcm c key nonce ct tag aad ≡ ok p
      → seal_gcm c key nonce p aad ≡ ok (ct, tag)
  unfolding seal_gcm open_gcm
  seal_gcm-open_gcm key nonce p aad ct tag h = ground (arith, l.seal-unseal key nonce p aad ct tag)

  pub length-derive_item_key : (master id : Bytes) → length (derive_item_key c master id) ≡ 32
  unfolding derive_item_key
  length-derive_item_key master id = l.length-hkdf master _ 32 (omega arith)

  pub length-derive_manifest_key : (master : Bytes) → length (derive_manifest_key c master) ≡ 32
  unfolding derive_manifest_key
  length-derive_manifest_key master = l.length-hkdf master _ 32 (omega arith)

-- A tag of 16 bytes is cut off again.
pub cut_tag :
    (ct tag : Bytes)
    → length tag ≡ 16
    → (take (length (ct ++ tag) - 16) (ct ++ tag) ≡ ct)
      × (drop (length (ct ++ tag) - 16) (ct ++ tag) ≡ tag)
cut_tag ct tag h =
    let cut : length ct ≡ length (ct ++ tag) - 16 = omega (arith, length-append ct tag) in
    (take-append ct tag _ cut, drop-append ct tag _ cut)
