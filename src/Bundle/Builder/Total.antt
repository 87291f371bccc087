-- ===== src/Bundle/Builder/Total.antt =====
-- The builder with the hash of Sources/CArgon2.
use security_core.Common.{ℕ, ◌+◌, ◌*◌, ◌≡◌, ◌<◌, ◌≤◌, ◌⊎◌, inl, inr, All, Bytes, length, ok, err}
use security_core.Argon2.Types.{ErrorCode, code_value, memory_too_little}
use security_core.Argon2.Memory.Platform.{Platform}
use security_core.Argon2.Entry.Tag.{IsPlatform, Fails}
use security_core.Bundle.Limits.{AreParams, parameter_out_of_bounds, hash_failed}
use security_core.Bundle.Failure.{thrown}
use security_core.Bundle.Crypto.{Cryptography}
use security_core.Bundle.Crypto.Laws.{IsCryptography}
use security_core.Bundle.Random.{RandomSource, IsWorking}
use security_core.Bundle.KeyDerivation.Raw.{argon2_raw, argon2_raw_cases}
use security_core.Bundle.Manifest.{Coder}
use security_core.Bundle.Builder.{BundleBuilder, build}
use security_core.Bundle.Builder.Returned.{
  IsExportable, Encodes, records_size, build_thrown, build_returned,
}

-- For parameters within the limits, a passphrase of 1 to 2^32 - 1 bytes, items that each keep the limit
-- of an item and have both TTL fields or none, and records that with the largest manifest keep the limit
-- of a file, the builder returns a bundle if the memory has eight blocks for each lane. With less
-- memory, which the limits allow, it throws the error with the code ARGON2_MEMORY_TOO_LITTLE of
-- `argon2id_hash_raw`. Or else the platform has failed, and the builder throws the code that says how.
-- Conditions: the laws of CryptoKit, an allocator that gives as much as it is asked for, a random source
-- that succeeds, and a JSON encoder that succeeds within the limit of a manifest.
pub build_total :
    {D : Type 0} (c : Cryptography) (j : Coder D) (o : Platform) (source : RandomSource) (call : ℕ)
    (b : BundleBuilder D) (passphrase : Bytes)
    → IsCryptography c
    → IsPlatform o
    → IsWorking source
    → Encodes j b
    → All IsExportable b.items
    → AreParams b.parameters.time_cost b.parameters.memory_kib b.parameters.parallelism
    → 0 < length passphrase
    → length passphrase ≤ 0xffff_ffff
    → 96 + 1048576 + records_size b.items ≤ 2147483648
    → let res = build c j (argon2_raw o) source call b passphrase in
      ((8 * b.parameters.parallelism ≤ b.parameters.memory_kib)
        × ((file : Bytes) × (res ≡ ok file)))
      ⊎ ((b.parameters.memory_kib < 8 * b.parameters.parallelism)
          × (res
              ≡ err
                  (thrown (parameter_out_of_bounds (hash_failed (code_value memory_too_little))))))
      ⊎ ((e : ErrorCode) × Fails o (err e)
          × (res ≡ err (thrown (parameter_out_of_bounds (hash_failed (code_value e))))))
build_total c j o source call b passphrase l platform w texts v params p short cap =
    let hash_raw = argon2_raw o in
    let (salt, e1, n1) = w call 16 in
    let throw = build_thrown c j hash_raw source call b passphrase salt w p e1 n1 in
    elim (argon2_raw_cases o platform b.parameters.time_cost b.parameters.memory_kib
      b.parameters.parallelism passphrase salt params short n1) [
        | inl (enough, (key, _, e)) ↦ inl (
          enough,
          build_returned c j hash_raw source call b passphrase salt w p e1 n1 key e l texts v params
              cap,
        )
        | inr (inl (less, e)) ↦ inr (inl (less, throw (code_value memory_too_little) e))
        | inr (inr (e, f, h)) ↦ inr (inr (e, f, throw (code_value e) h))
      ]
