-- ===== src/Bundle/Sample.antt =====
-- Concrete instances of what the bundle format takes as a parameter, and a builder with two items.
pub mod Coder
pub mod Files
use security_core.Common.{
  ℕ, ◌+◌, ◌%◌, ◌≡◌, refl, sym, ap, ap₂, ◌∙◌, true, false, ◌==◌, ==_iff, Option, none, some, List,
  [], ◌∷◌, ◌++◌, Bytes, codes, length, length-replicate, replicate, bytes_eq, bytes_eq_refl,
  bytes_eq-eq, if◌then◌else◌, if_cases, inl, inr, ok, pos,
}
use security_core.Bundle.Crypto.{Cryptography}
use security_core.Bundle.Crypto.Laws.{IsCryptography}
use security_core.Bundle.Random.{RandomSource}
use security_core.Bundle.KeyDerivation.{HashRaw, recommended_default}
use security_core.Bundle.Builder.{ItemContent, BundleBuilder}

abbrev pub sum : Bytes → ℕ
sum [] = 0
sum (x ∷ xs) = x + sum xs

-- A checksum in place of an authentication tag: it depends on all that a tag depends on.
abbrev pub checksum : Bytes → Bytes → Bytes → Bytes → Bytes
checksum key nonce text aad = (sum key + sum nonce + sum text + sum aad) % 256 ∷ replicate 15 0

abbrev pub toy_cryptography : Cryptography
toy_cryptography = record {
  hkdf = λ key info n. replicate n ((sum key + sum info) % 256);
  is_nonce = λ nonce. length nonce == 12;
  is_sealed_box = λ nonce ciphertext tag. length tag == 16;
  seal = λ key nonce text aad. some (text, checksum key nonce text aad);
  unseal = λ key nonce ciphertext tag aad.
      if bytes_eq tag (checksum key nonce ciphertext aad) then some ciphertext else none;
}

toy_unseal :
    (key nonce p aad ct tag : Bytes)
    → toy_cryptography.unseal key nonce ct tag aad ≡ some p
    → toy_cryptography.seal key nonce p aad ≡ some (ct, tag)
toy_unseal key nonce p aad ct tag h = elim (if_cases (bytes_eq tag (checksum key nonce ct aad)) h) [
  | inl (e, f) ↦
      let same : ct ≡ p = cc (f) in
      let tags = bytes_eq-eq tag (checksum key nonce ct aad) e in
      ap (λ t. some (t, checksum key nonce t aad)) (sym same) ∙ ap (λ t. some (ct, t)) (sym tags)
  | inr (e, f) ↦ cc (f)
]

pub toy_cryptography-IsCryptography : IsCryptography toy_cryptography
toy_cryptography-IsCryptography = record {
  length-hkdf = λ key info n h. length-replicate n ((sum key + sum info) % 256);
  nonce_12 = λ nonce h. (==_iff (length nonce) 12).1 h;
  tag_16 = λ nonce ciphertext tag n h. (==_iff (length tag) 16).1 h;
  seal_total = λ key nonce p aad k n h. (p, checksum key nonce p aad, refl);
  length-seal = λ key nonce p aad ct tag h.
      let a : p ≡ ct = cc (h) in
      let b : checksum key nonce p aad ≡ tag = cc (h) in (ap length (sym a), ap length (sym b));
  unseal-seal = λ key nonce p aad ct tag h.
      let a : p ≡ ct = cc (h) in
      let b : checksum key nonce p aad ≡ tag = cc (h) in
      let e : bytes_eq tag (checksum key nonce ct aad) ≡ true =
        ap₂ (λ s t. bytes_eq s (checksum key nonce t aad)) (sym b) (sym a)
        ∙ bytes_eq_refl (checksum key nonce p aad) in
      rw (e, a);
  seal-unseal = toy_unseal;
}

abbrev pub toy_hash : HashRaw
toy_hash time memory lanes passphrase salt n = ok (replicate n ((sum passphrase + sum salt) % 256))

-- The bytes of the call with the number `call`.
abbrev pub toy_source : RandomSource
toy_source call n = some (replicate n (call % 256))

abbrev pub note : ItemContent ℕ
note = record {
  id = replicate 16 1;
  name = codes "note";
  mime_type = codes "text";
  plaintext = codes "hello";
  created_at = 1723004;
  modified_at = 1729500;
  ttl_seconds = some 60;
  ttl_origin_epoch = some 1725001;
}

abbrev pub photo : ItemContent ℕ
photo = record {
  id = replicate 16 2;
  name = codes "photo";
  mime_type = codes "jpeg";
  plaintext = 255 ∷ 216 ∷ 255 ∷ [];
  created_at = 1800999;
  modified_at = 1800999;
  ttl_seconds = none;
  ttl_origin_epoch = none;
}

abbrev pub two_items : BundleBuilder ℕ
two_items = record {
  items = note ∷ photo ∷ [];
  parameters = recommended_default;
  export_label = some (codes "backup");
  exported_at = 1999001;
}

-- A builder to which the same item was added twice.
abbrev pub same_item_twice : BundleBuilder ℕ
same_item_twice = record two_items { items = note ∷ note ∷ [] }
