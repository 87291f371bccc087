-- ===== src/Bundle/Parser/RoundTrip.antt =====
-- From `build` to `unlock` and `decrypt`, with one passphrase.
use security_core.Common.{ℕ, ◌≡◌, refl, some, List, get_elem?, Distinct, Bytes, ok, err, subst}
use security_core.Bundle.Limits.{validate_argon2_params_iff, manifest_parse_failed, duplicate_id}
use security_core.Bundle.Failure.{thrown}
use security_core.Bundle.Crypto.{Cryptography}
use security_core.Bundle.Crypto.Laws.{IsCryptography}
use security_core.Bundle.Random.{RandomSource}
use security_core.Bundle.KeyDerivation.{HashRaw, init_parameters}
use security_core.Bundle.Manifest.{ItemDescriptor, Manifest, Coder, init_manifest}
use security_core.Bundle.Manifest.Laws.{IsCoder, stored_manifest, decrypt_manifest-duplicate}
use security_core.Bundle.Builder.{ItemContent, BundleBuilder, descriptors, build}
use security_core.Bundle.Builder.Sealed.{Staged, item_ids}
use security_core.Bundle.Builder.BuiltFrom.{BuiltFrom, build-BuiltFrom}
use security_core.Bundle.Parser.{
  BundleParser, init_parser, header_key, unlock_with_key, unlock, decrypt,
}
use security_core.Bundle.Parser.Open.{
  ids-descriptors, descriptors-IsDescriptor, read_manifest-err, locked_parser, init_parser-Built,
  delivered, unlocked_parser, unlock_with_key-Built,
}
use security_core.Bundle.Parser.Delivered.{decrypt-Built}

module _ {D : Type 0} (c : Cryptography) (l : IsCryptography c) (j : Coder D) (hash_raw : HashRaw)
    (b : BundleBuilder D) (passphrase file : Bytes) where
  -- The parser derives the key of the builder again.
  pub header_key-BuiltFrom :
      (f : BuiltFrom c j hash_raw b passphrase file)
      → let r = f.built in
        header_key hash_raw (locked_parser {D = D} r.header r.header_bytes file) passphrase
        ≡ ok f.master
  unfolding header_key init_parameters
  header_key-BuiltFrom f =
      let r = f.built in
      let (t, m, p) = r.header_parameters in
      rw ((validate_argon2_params_iff _ _ _).1 r.header_valid.params, t, m, p, r.header_fields.0)
        f.key

  module _ (stored : D → D) (k : IsCoder stored j) (source : RandomSource) (call : ℕ) where
    -- A bundle that the builder returns is opened by the parser and unlocked by the passphrase. The
    -- manifest has the date and the label of the builder and the descriptor of each item, its dates
    -- as the JSON coder keeps them. Conditions: the laws of CryptoKit and of the coder, and items
    -- with distinct identifiers.
    pub unlock-build :
        Distinct (item_ids b.items)
        → build c j hash_raw source call b passphrase ≡ ok file
        → (p : BundleParser D) × (u : BundleParser D) × (staged : List (ItemDescriptor D × Bytes))
          × (init_parser file ≡ ok p)
          × (unlock c j hash_raw p passphrase ≡ (
            u,
            ok (
                stored_manifest stored
                  (init_manifest b.exported_at b.export_label (descriptors staged))),
          ))
          × Staged b.items staged
    unfolding unlock
    unlock-build distinct h =
        let f = build-BuiltFrom c j hash_raw b passphrase source call file h in
        let r = f.built in
        (
          locked_parser r.header r.header_bytes file,
          unlocked_parser c l j b f.master f.salt f.nonce file r stored k distinct,
          r.staged,
          init_parser-Built c l j b f.master f.salt f.nonce file r,
          rw (header_key-BuiltFrom f)
              (unlock_with_key-Built c l j b f.master f.salt f.nonce file r stored k distinct),
          r.items_staged,
        )

    -- Each item of a builder comes back: the bundle that the builder returns is opened by the
    -- parser and unlocked by the passphrase, and then each descriptor that has the identifier of
    -- the item is decrypted to the plaintext of the item. Conditions: the laws of CryptoKit and of
    -- the coder, and items with distinct identifiers.
    pub decrypt-build :
        (i : ℕ) (item : ItemContent D) (d : ItemDescriptor D)
        → Distinct (item_ids b.items)
        → get_elem? b.items i ≡ some item
        → d.id ≡ item.id
        → build c j hash_raw source call b passphrase ≡ ok file
        → (p : BundleParser D) × (u : BundleParser D) × (m : Manifest D) × (init_parser file ≡ ok p)
          × (unlock c j hash_raw p passphrase ≡ (u, ok m))
          × (decrypt c u d ≡ ok item.plaintext)
    unfolding unlock
    decrypt-build i item d distinct e same h =
        let f = build-BuiltFrom c j hash_raw b passphrase source call file h in
        let r = f.built in
        (
          locked_parser r.header r.header_bytes file,
          unlocked_parser c l j b f.master f.salt f.nonce file r stored k distinct,
          delivered c l j b f.master f.salt f.nonce file r stored k distinct,
          init_parser-Built c l j b f.master f.salt f.nonce file r,
          rw (header_key-BuiltFrom f)
              (unlock_with_key-Built c l j b f.master f.salt f.nonce file r stored k distinct),
          decrypt-Built c l j b f.master f.salt f.nonce file r stored k distinct i item d e same,
        )

    -- The builder does not compare identifiers: a bundle that it returns for items whose
    -- identifiers are not distinct is opened by the parser, but the passphrase does not unlock it.
    -- The call throws the error for a repeated identifier and leaves the parser locked. Conditions:
    -- the laws of CryptoKit and of the coder.
    pub unlock-build_duplicate :
        ¬ Distinct (item_ids b.items)
        → build c j hash_raw source call b passphrase ≡ ok file
        → (p : BundleParser D) × (id : Bytes) × (init_parser file ≡ ok p)
          × (unlock c j hash_raw p passphrase
              ≡ (p, err (thrown (manifest_parse_failed (duplicate_id id)))))
    unfolding unlock unlock_with_key
    unlock-build_duplicate repeated h =
        let f = build-BuiltFrom c j hash_raw b passphrase source call file h in
        let r = f.built in
        let (id, refused) =
          decrypt_manifest-duplicate stored c l j k _ f.master f.nonce r.header_bytes r.ciphertext
            r.tag refl (descriptors-IsDescriptor b.items r.staged r.items_staged)
            (λ distinct.
              repeated (subst Distinct (ids-descriptors b.items r.staged r.items_staged) distinct))
            r.manifest_sealed in
        (
          locked_parser r.header r.header_bytes file,
          id,
          init_parser-Built c l j b f.master f.salt f.nonce file r,
          rw (
            header_key-BuiltFrom f,
            read_manifest-err c l j b f.master f.salt f.nonce file r
                (thrown (manifest_parse_failed (duplicate_id id))) refused,
          ),
        )
