-- ===== src/Bundle/Manifest/Laws.antt =====
-- The manifest through its JSON form and its encryption.
use mathlib.Core.Option
use security_core.Common.{
  ◌+◌, ℕ, pos, ◌≡◌, ◌<◌, ◌^◌, refl, sym, ap, subst, none, some, List, [], ◌∷◌, Bytes, length, All,
  Distinct, ok, err, >>=-eq-ok, >>=-elim, arith,
}
use security_core.Bundle.Limits.{manifest_parse_failed, duplicate_id}
use security_core.Bundle.Failure.{thrown, attempt}
use security_core.Bundle.Crypto.{Cryptography, derive_manifest_key, seal_gcm, open_gcm}
use security_core.Bundle.Crypto.Laws.{
  IsCryptography, open_gcm-seal_gcm, seal_gcm-open_gcm, length-seal_gcm, seal_gcm_total,
  length-derive_manifest_key,
}
use security_core.Bundle.Manifest.{
  ItemDescriptor, Manifest, Coder, encode_json, decode_json, validate, encrypt_manifest,
  decrypt_manifest,
}
use security_core.Bundle.Manifest.Valid.{
  AreTogether, IsDescriptor, IsManifest, ids, validate_iff, validate-duplicate,
}

module _ {D : Type 0} (j : Coder D) where
  pub encode_json-eq-ok :
      (m : Manifest D) (bytes : Bytes) → encode_json j m ≡ ok bytes → j.encode m ≡ some bytes
  unfolding encode_json
  encode_json-eq-ok m bytes h = ground arith

  decode_json-eq-ok :
      (m : Manifest D) (bytes : Bytes)
      → attempt (decode_json j bytes) ≡ ok m
      → (j.decode bytes ≡ some m) × (validate m ≡ ok tt)
  unfolding decode_json
  decode_json-eq-ok m bytes h = ground arith

module _ {D : Type 0} (stored : D → D) where
  abbrev pub stored_descriptor : ItemDescriptor D → ItemDescriptor D
  stored_descriptor d = record d {
    created_at = stored d.created_at;
    modified_at = stored d.modified_at;
    ttl_origin_epoch = Option.map stored d.ttl_origin_epoch;
  }

  abbrev pub stored_items : List (ItemDescriptor D) → List (ItemDescriptor D)
  stored_items [] = []
  stored_items (d ∷ items) = stored_descriptor d ∷ stored_items items

  -- Only the dates change.
  abbrev pub stored_manifest : Manifest D → Manifest D
  stored_manifest m = record m { exported_at = stored m.exported_at; items = stored_items m.items }

  -- The documented behaviour of the JSON coder with ISO 8601 dates: what is encoded is decoded
  -- again, up to what such a date keeps of a date (its whole seconds).
  abbrev pub IsCoder : Coder D → Type 0
  IsCoder j =
      (m : Manifest D) (bytes : Bytes)
      → j.encode m ≡ some bytes
      → j.decode bytes ≡ some (stored_manifest m)

  AreTogether-map :
      (a : Option.Option ℕ) (b : Option.Option D)
      → AreTogether a b
      → AreTogether a (Option.map stored b)
  AreTogether-map none none h = tt
  AreTogether-map none (some b) h = h
  AreTogether-map (some a) none h = h
  AreTogether-map (some a) (some b) h = tt

  ids-stored_items : (items : List (ItemDescriptor D)) → ids (stored_items items) ≡ ids items
  ids-stored_items [] = refl
  ids-stored_items (d ∷ items) = ap (λ t. d.id ∷ t) (ids-stored_items items)

  stored_items-IsDescriptor :
      (items : List (ItemDescriptor D))
      → All IsDescriptor items
      → All IsDescriptor (stored_items items)
  stored_items-IsDescriptor [] h = tt
  stored_items-IsDescriptor (d ∷ items) (v, h) = (
    record {
      nonce_12 = v.nonce_12;
      size_range = v.size_range;
      ttl = AreTogether-map d.ttl_seconds d.ttl_origin_epoch v.ttl;
    },
    stored_items-IsDescriptor items h,
  )

  pub stored_manifest-IsManifest : (m : Manifest D) → IsManifest m → IsManifest (stored_manifest m)
  stored_manifest-IsManifest m v = record {
    current = v.current;
    descriptors = stored_items-IsDescriptor m.items v.descriptors;
    distinct = subst Distinct (sym (ids-stored_items m.items)) v.distinct;
  }

  module _ (c : Cryptography) (l : IsCryptography c) (j : Coder D) (k : IsCoder j) where
    -- A valid manifest that is encrypted is decrypted again, up to its dates, with the same key,
    -- nonce and header.
    pub decrypt_manifest-encrypt_manifest :
        (m : Manifest D) (master nonce header ciphertext tag : Bytes)
        → IsManifest m
        → encrypt_manifest c j m master nonce header ≡ ok (ciphertext, tag)
        → decrypt_manifest c j ciphertext tag master nonce header ≡ ok (stored_manifest m)
    unfolding encrypt_manifest decrypt_manifest encode_json decode_json
    decrypt_manifest-encrypt_manifest m master nonce header ct tag v h =
        let (plaintext, e, sealed) = >>=-eq-ok (encode_json j m) _ h in
        let key = derive_manifest_key c master in
        rw (
          open_gcm-seal_gcm c l key nonce plaintext header ct tag sealed,
          k m plaintext (encode_json-eq-ok j m plaintext e),
          (validate_iff (stored_manifest m)).1 (stored_manifest-IsManifest m v),
        )

    -- A manifest whose descriptors are valid and whose identifiers are not distinct is encrypted, but
    -- is not decrypted again.
    pub decrypt_manifest-duplicate :
        (m : Manifest D) (master nonce header ciphertext tag : Bytes)
        → m.schema_version ≡ pos 1
        → All IsDescriptor m.items
        → ¬ Distinct (ids m.items)
        → encrypt_manifest c j m master nonce header ≡ ok (ciphertext, tag)
        → (id : Bytes) × (decrypt_manifest c j ciphertext tag master nonce header
            ≡ err (thrown (manifest_parse_failed (duplicate_id id))))
    unfolding encrypt_manifest decrypt_manifest decode_json
    decrypt_manifest-duplicate m master nonce header ct tag v d repeated h =
        >>=-elim (encode_json j m) h λ plaintext e sealed.
          let (id, refused) =
            validate-duplicate (stored_manifest m) v (stored_items-IsDescriptor m.items d)
              (λ distinct. repeated (subst Distinct (ids-stored_items m.items) distinct)) in
          (
            id,
            rw (
              open_gcm-seal_gcm c l (derive_manifest_key c master) nonce plaintext header ct tag
                  sealed,
              k m plaintext (encode_json-eq-ok j m plaintext e),
              refused,
            ),
          )

module _ {D : Type 0} (c : Cryptography) (l : IsCryptography c) (j : Coder D) where
  pub encrypt_manifest_total :
      (m : Manifest D) (master nonce header plaintext : Bytes)
      → j.encode m ≡ some plaintext
      → length nonce ≡ 12
      → length plaintext < 2 ^ 32
      → (ciphertext : Bytes) × (tag : Bytes) × (encrypt_manifest c j m master nonce header
          ≡ ok (ciphertext, tag))
        × (length ciphertext + length tag ≡ length plaintext + 16)
  unfolding encrypt_manifest encode_json
  encrypt_manifest_total m master nonce header plaintext e n short =
      let (ct, tag, sealed, lc, lt) =
        seal_gcm_total c l (derive_manifest_key c master) nonce plaintext header
          (length-derive_manifest_key c l master) n short in
      (ct, tag, rw (e, sealed), omega (arith, lc, lt))

  pub length-encrypt_manifest :
      (m : Manifest D) (master nonce header ciphertext tag : Bytes)
      → encrypt_manifest c j m master nonce header ≡ ok (ciphertext, tag)
      → length tag ≡ 16
  unfolding encrypt_manifest
  length-encrypt_manifest m master nonce header ct tag h =
      >>=-elim (encode_json j m) h λ plaintext _ sealed.
        (length-seal_gcm c l (derive_manifest_key c master) nonce plaintext header ct tag sealed).1

  -- What is decrypted is valid, and is what the decoder reads in a text whose seal, with the same
  -- key, nonce and header, is the ciphertext with the tag.
  pub decrypt_manifest-eq-ok :
      (m : Manifest D) (master nonce header ciphertext tag : Bytes)
      → decrypt_manifest c j ciphertext tag master nonce header ≡ ok m
      → IsManifest m
        × ((plaintext : Bytes) × (j.decode plaintext ≡ some m)
            × (seal_gcm c (derive_manifest_key c master) nonce plaintext header
                ≡ ok (ciphertext, tag)))
  unfolding decrypt_manifest decode_json
  decrypt_manifest-eq-ok m master nonce header ct tag h =
      let key = derive_manifest_key c master in
      let (plaintext, e, read) = >>=-eq-ok (open_gcm c key nonce ct tag header) _ h in
      let (text, valid) = decode_json-eq-ok j m plaintext read in
      (
        (validate_iff m).0 valid,
        (plaintext, text, seal_gcm-open_gcm c l key nonce plaintext header ct tag e),
      )
