-- ===== src/Bundle/Parser/Platforms.antt =====
-- `build` on one platform and `unlock` on another, with the hash of Sources/CArgon2.
use security_core.Common.{
  ℕ, ◌≡◌, ap, ◌∙◌, ◌⊎◌, inl, inr, some, get_elem?, Distinct, Bytes, ok, err, arith,
}
use security_core.Argon2.Types.{ErrorCode, code_value}
use security_core.Argon2.Memory.Platform.{Platform}
use security_core.Argon2.Entry.Tag.{IsPlatform, Fails}
use security_core.Bundle.Limits.{
  AreParams, parameter_out_of_bounds, hash_failed, validate_argon2_params_iff,
}
use security_core.Bundle.Failure.{thrown}
use security_core.Bundle.Crypto.{Cryptography}
use security_core.Bundle.Crypto.Laws.{IsCryptography}
use security_core.Bundle.Random.{RandomSource}
use security_core.Bundle.KeyDerivation.{init_parameters}
use security_core.Bundle.KeyDerivation.Raw.{argon2_raw}
use security_core.Bundle.KeyDerivation.Again.{derive_key_again}
use security_core.Bundle.Manifest.{ItemDescriptor, Manifest, Coder}
use security_core.Bundle.Manifest.Laws.{IsCoder}
use security_core.Bundle.Builder.{ItemContent, BundleBuilder, build}
use security_core.Bundle.Builder.Sealed.{item_ids}
use security_core.Bundle.Builder.BuiltFrom.{BuiltFrom, build-BuiltFrom}
use security_core.Bundle.Parser.{BundleParser, init_parser, header_key, unlock_by, unlock, decrypt}
use security_core.Bundle.Parser.Open.{
  locked_parser, init_parser-Built, delivered, unlocked_parser, unlock_with_key-Built,
}
use security_core.Bundle.Parser.Delivered.{decrypt-Built}

module _ {D : Type 0} (c : Cryptography) (l : IsCryptography c) (j : Coder D) (o p : Platform)
    (b : BundleBuilder D) (passphrase file : Bytes) where
  -- The parser on the second platform derives the key of the builder on the first one.
  header_key_again :
      (f : BuiltFrom c j (argon2_raw o) b passphrase file)
      → IsPlatform o
      → IsPlatform p
      → let r = f.built in
        let key =
          header_key
            (argon2_raw p)
            (locked_parser {D = D} r.header r.header_bytes file)
            passphrase in
        (key ≡ ok f.master)
        ⊎ ((e : ErrorCode) × Fails p (err e)
            × (key ≡ err (thrown (parameter_out_of_bounds (hash_failed (code_value e))))))
  unfolding header_key init_parameters
  header_key_again f given platform =
      let r = f.built in
      let (t, m, lanes) = r.header_parameters in
      let range = r.header_valid.params in
      let params : AreParams b.parameters.time_cost b.parameters.memory_kib
          b.parameters.parallelism =
        omega (arith, range, t, m, lanes) in
      let valid = (validate_argon2_params_iff _ _ _).1 range in
      elim (derive_key_again o p given platform passphrase f.salt b.parameters f.master params
        f.key) [
          | inl key ↦ inl (rw (valid, t, m, lanes, r.header_fields.0) key)
          | inr (e, fails, key) ↦ inr (e, fails, rw (valid, t, m, lanes, r.header_fields.0) key)
        ]

  module _ (stored : D → D) (k : IsCoder stored j) (source : RandomSource) (call : ℕ) where
    -- A bundle that the builder returns on one platform is opened, and on any other platform it is
    -- unlocked by the passphrase, and then each descriptor that has the identifier of an item is
    -- decrypted to the plaintext of the item; or else this platform fails, the call throws the error
    -- with the code that says how, and the parser stays locked. Conditions: the laws of CryptoKit and
    -- of the coder, allocators that give as much as they are asked for, and items with distinct
    -- identifiers.
    pub decrypt-build_platforms :
        (i : ℕ) (item : ItemContent D) (d : ItemDescriptor D)
        → IsPlatform o
        → IsPlatform p
        → Distinct (item_ids b.items)
        → get_elem? b.items i ≡ some item
        → d.id ≡ item.id
        → build c j (argon2_raw o) source call b passphrase ≡ ok file
        → (q : BundleParser D) × (init_parser file ≡ ok q)
          × (((u : BundleParser D) × (m : Manifest D) × (unlock c j (argon2_raw p) q passphrase
                  ≡ (u, ok m))
                × (decrypt c u d ≡ ok item.plaintext))
              ⊎ ((e : ErrorCode) × Fails p (err e)
                  × (unlock c j (argon2_raw p) q passphrase
                      ≡ (q, err (thrown (parameter_out_of_bounds (hash_failed (code_value e))))))))
    unfolding unlock
    decrypt-build_platforms i item d given platform distinct e same h =
        let f = build-BuiltFrom c j (argon2_raw o) b passphrase source call file h in
        let r = f.built in
        let q = locked_parser r.header r.header_bytes file in
        (
          q,
          init_parser-Built c l j b f.master f.salt f.nonce file r,
          elim (header_key_again f given platform) [
            | inl key ↦ inl (
              unlocked_parser c l j b f.master f.salt f.nonce file r stored k distinct,
              delivered c l j b f.master f.salt f.nonce file r stored k distinct,
              ap (unlock_by c j q) key
                  ∙ unlock_with_key-Built c l j b f.master f.salt f.nonce file r stored k distinct,
              decrypt-Built c l j b f.master f.salt f.nonce file r stored k distinct i item d e
                  same,
            )
            | inr (code, fails, key) ↦ inr (code, fails, ap (unlock_by c j q) key)
          ],
        )
