-- ===== src/Bundle/KeyDerivation.antt =====
-- Sources/UltraLockedFormat/Argon2id.swift. `argon2id_hash_raw` is a parameter, for which Raw has the
-- function of Sources/CArgon2. A passphrase is
-- its UTF-8 bytes, which are empty exactly if it is.
pub mod Raw
pub mod Again
use security_core.Common.{ℕ, ◌==◌, not, Bytes, length, Result, ok, err, ◌>>◌, guard}
use security_core.Bundle.Limits.{
  parameter_out_of_bounds, empty_passphrase, salt_size, hash_failed, validate_argon2_params,
}
use security_core.Bundle.Failure.{Failure, thrown, attempt}

pub record Parameters : Type 0 where
  pub time_cost : ℕ
  pub memory_kib : ℕ
  pub parallelism : ℕ

-- The throwing initializer.
unfoldable pub init_parameters : Parameters → Result Failure Parameters
init_parameters p = do attempt (validate_argon2_params p.time_cost p.memory_kib p.parallelism); ok p

abbrev pub recommended_default : Parameters
recommended_default = record { time_cost = 3; memory_kib = 65536; parallelism = 4 }

-- time cost, memory, lanes, passphrase, salt, length of the key: the key, or an error code, which in
-- C is the negation of the number
abbrev pub HashRaw : Type 0
HashRaw = ℕ → ℕ → ℕ → Bytes → Bytes → ℕ → Result ℕ Bytes

abbrev pub key_length_bytes : ℕ
key_length_bytes = 32

abbrev or_fail : Result ℕ Bytes → Result Failure Bytes
or_fail (ok key) = ok key
or_fail (err code) = err (thrown (parameter_out_of_bounds (hash_failed code)))

-- The second test of the passphrase, on its bytes, is the first one again.
unfoldable pub derive_key : HashRaw → Bytes → Bytes → Parameters → Result Failure Bytes
derive_key hash_raw passphrase salt p = do
  guard (not (length passphrase == 0)) (thrown (parameter_out_of_bounds empty_passphrase))
  guard (length salt == 16) (thrown (parameter_out_of_bounds (salt_size (length salt))))
  or_fail (hash_raw p.time_cost p.memory_kib p.parallelism passphrase salt key_length_bytes)
