-- ===== src/Bundle/Parser/Refinement.antt =====
-- The parser of a bundle that was built, beside the vault.
use security_core.Common.{
  ℕ, ◌≡◌, refl, sym, ◌∙◌, Bool, true, false, List, [], ◌∷◌, Distinct, Bytes, ok,
}
use security_core.Bundle.Crypto.{Cryptography}
use security_core.Bundle.Crypto.Laws.{IsCryptography}
use security_core.Bundle.Random.{RandomSource}
use security_core.Bundle.KeyDerivation.{HashRaw}
use security_core.Bundle.Manifest.{ItemDescriptor, Manifest, Coder, init_manifest}
use security_core.Bundle.Manifest.Laws.{IsCoder, stored_manifest}
use security_core.Bundle.Builder.{BundleBuilder, descriptors, build}
use security_core.Bundle.Builder.Sealed.{Staged, item_ids}
use security_core.Bundle.Builder.Built.{Built}
use security_core.Bundle.Builder.BuiltFrom.{BuiltFrom, build-BuiltFrom}
use security_core.Bundle.Parser.{
  BundleParser, init_parser, read_manifest, unlock_with_key, unlock, header_key, lock, decrypt,
}
use security_core.Bundle.Parser.Open.{
  locked_parser, init_parser-Built, delivered, unlocked_parser, read_manifest-Built,
  unlock_with_key-Built,
}
use security_core.Bundle.Parser.RoundTrip.{header_key-BuiltFrom}
use security_core.Bundle.Parser.Delivered.{decrypt-Built}
use security_core.Bundle.Parser.Vault.{
  Call, unlocking, locking, decrypting, run_parser, read_vault, run_vault, hit, miss, Staged-Search,
}

module _ {D : Type 0} (c : Cryptography) (l : IsCryptography c) (j : Coder D) (hash_raw : HashRaw)
    (b : BundleBuilder D) (passphrase file : Bytes) (stored : D → D) (k : IsCoder stored j)
    (distinct : Distinct (item_ids b.items)) where
  module _ (f : BuiltFrom c j hash_raw b passphrase file) where
    abbrev r : Built c j b f.master f.salt f.nonce file
    r = f.built

    abbrev exported : Manifest D
    exported = delivered c l j b f.master f.salt f.nonce file r stored k distinct

    -- The parser that stands for a vault.
    abbrev parser_of : Bool → BundleParser D
    parser_of false = locked_parser r.header r.header_bytes file
    parser_of true = unlocked_parser c l j b f.master f.salt f.nonce file r stored k distinct

    unlock-parser_of :
        (is_open : Bool)
        → unlock c j hash_raw (parser_of is_open) passphrase ≡ (parser_of true, ok exported)
    unfolding unlock header_key unlock_with_key read_manifest
    unlock-parser_of false =
        rw (header_key-BuiltFrom c l j hash_raw b passphrase file f)
          (unlock_with_key-Built c l j b f.master f.salt f.nonce file r stored k distinct)
    unlock-parser_of true =
        let key : header_key hash_raw (parser_of true) passphrase ≡ ok f.master =
          header_key-BuiltFrom c l j hash_raw b passphrase file f in
        let text : read_manifest c j (parser_of true) f.master ≡ ok exported =
          read_manifest-Built c l j b f.master f.salt f.nonce file r stored k distinct in
        rw (key, text)

    lock-parser_of : (is_open : Bool) → lock (parser_of is_open) ≡ parser_of false
    unfolding lock
    lock-parser_of false = refl
    lock-parser_of true = refl

    decrypt-parser_of :
        (is_open : Bool) (d : ItemDescriptor D)
        → decrypt c (parser_of is_open) d ≡ read_vault b.items is_open d.id
    unfolding decrypt
    decrypt-parser_of false d = refl
    decrypt-parser_of true d = elim (Staged-Search stored d.id b.items r.staged r.items_staged) [
      | hit i item at same f1 ↦
          decrypt-Built c l j b f.master f.salt f.nonce file r stored k distinct i item d at same
          ∙ sym f1
      | miss f1 none_listed ↦ rw (none_listed, f1)
    ]

    run_parser-parser_of :
        (is_open : Bool) (calls : List (Call D))
        → run_parser c j hash_raw passphrase (parser_of is_open) calls
          ≡ run_vault exported b.items is_open calls
    run_parser-parser_of is_open [] = refl
    run_parser-parser_of is_open (unlocking ∷ calls) =
        rw (unlock-parser_of is_open, run_parser-parser_of true calls)
    run_parser-parser_of is_open (locking ∷ calls) =
        rw (lock-parser_of is_open, run_parser-parser_of false calls)
    run_parser-parser_of is_open (decrypting d ∷ calls) =
        rw (decrypt-parser_of is_open d, run_parser-parser_of is_open calls)

  -- The parser of a bundle that the builder returned is a refinement of a vault: whatever sequence of
  -- `unlock` with the passphrase, `lock` and `decrypt` a client calls, the answers are those of a
  -- vault with the items of the builder, closed at first, that opens, closes and, while it is open,
  -- looks up the plaintext of an identifier. The listing that it opens with has the date and the
  -- label of the builder and the descriptor of each item, its dates as the JSON coder keeps them.
  -- Conditions: the laws of CryptoKit and of the coder, and items with distinct identifiers.
  pub run_parser-run_vault :
      (source : RandomSource) (call : ℕ) (calls : List (Call D))
      → build c j hash_raw source call b passphrase ≡ ok file
      → (p : BundleParser D) × (staged : List (ItemDescriptor D × Bytes)) × (init_parser file
          ≡ ok p)
        × Staged b.items staged
        × (run_parser c j hash_raw passphrase p calls
            ≡ run_vault
                (stored_manifest stored
                  (init_manifest b.exported_at b.export_label (descriptors staged)))
                b.items
                false
                calls)
  run_parser-run_vault source call calls h =
      let f = build-BuiltFrom c j hash_raw b passphrase source call file h in
      (
        parser_of f false,
        f.built.staged,
        init_parser-Built c l j b f.master f.salt f.nonce file f.built,
        f.built.items_staged,
        run_parser-parser_of f false calls,
      )
