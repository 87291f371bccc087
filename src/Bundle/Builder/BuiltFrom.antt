-- ===== src/Bundle/Builder/BuiltFrom.antt =====
-- What a bundle that `build` returns consists of.
use security_core.Common.{ℕ, ◌+◌, ◌≡◌, Bytes, ok, >>=-elim}
use security_core.Bundle.Crypto.{Cryptography}
use security_core.Bundle.Random.{RandomSource, random_bytes}
use security_core.Bundle.KeyDerivation.{HashRaw, derive_key}
use security_core.Bundle.Manifest.{Coder}
use security_core.Bundle.Builder.{BundleBuilder, build}
use security_core.Bundle.Builder.Built.{Built, build_bundle-Built}

module _ {D : Type 0} (c : Cryptography) (j : Coder D) (hash_raw : HashRaw) (b : BundleBuilder D)
    (passphrase : Bytes) where
  pub record BuiltFrom (file : Bytes) : Type 0 where
    pub salt : Bytes
    pub nonce : Bytes
    pub master : Bytes
    pub key : derive_key hash_raw passphrase salt b.parameters ≡ ok master
    pub built : Built c j b master salt nonce file

  pub build-BuiltFrom :
      (source : RandomSource) (call : ℕ) (file : Bytes)
      → build c j hash_raw source call b passphrase ≡ ok file
      → BuiltFrom file
  unfolding build
  build-BuiltFrom source call file h = >>=-elim (random_bytes source call 16) h λ salt _ h1.
      >>=-elim (random_bytes source (call + 1) 12) h1 λ nonce _ h2.
        >>=-elim (derive_key hash_raw passphrase salt b.parameters) h2 λ master key h3. record {
          salt = salt;
          nonce = nonce;
          master = master;
          key = key;
          built = build_bundle-Built c j b master salt nonce source (call + 2) file h3;
        }
