-- ===== src/Bundle/KeyDerivation/Raw.antt =====
-- The call of `argon2id_hash_raw` (Sources/CArgon2/argon2.c) in Sources/UltraLockedFormat/Argon2id.swift.
use security_core.Common.{
  ℕ, ◌*◌, ◌≡◌, ◌≤◌, ◌<◌, refl, sym, ap, ◌∙◌, ◌⊎◌, inl, inr, Option, none, some, Bytes, length,
  take-all, replicate, Result, ok, err, arith,
}
use security_core.Argon2.Types
use security_core.Argon2.Types.{
  ErrorCode, argon2_id, code_value, thread_fail, memory_allocation_error, memory_too_little,
}
use security_core.Argon2.Encoding.{bytes_at, write_front}
use security_core.Argon2.Encoding.Decode.{bytes_at-write_front}
use security_core.Argon2.Memory.Platform.{Platform}
use security_core.Argon2.Entry.{Outcome, HashRequest, hash_context, argon2_hash, argon2id_hash_raw}
use security_core.Argon2.Entry.Tag.{argon2_tag, IsPlatform, Fails}
use security_core.Argon2.Entry.Reached.{IsRequest}
use security_core.Argon2.Entry.Refused.{argon2_hash_little}
use security_core.Argon2.Entry.Total.{argon2_hash_raw_total}
use security_core.Bundle.Limits.{AreParams}
use security_core.Bundle.KeyDerivation.{HashRaw}

-- The arguments of the call.
abbrev pub raw_request : ℕ → ℕ → ℕ → Bytes → Bytes → ℕ → HashRequest
raw_request time memory lanes passphrase salt n = record {
  t_cost = time;
  m_cost = memory;
  parallelism = lanes;
  pwd = some passphrase;
  pwdlen = length passphrase;
  salt = some salt;
  saltlen = length salt;
  hashlen = n;
  type = argon2_id;
  version = Types.version_number;
}

-- The code and the key buffer after the call.
abbrev pub raw_result : ℕ → Outcome → Option Bytes → Result ℕ Bytes
raw_result n (ok done) hash = ok (bytes_at hash n)
raw_result n (err e) hash = err (code_value e)

-- The key buffer is `Data(count:)`, zeros.
unfoldable pub argon2_raw : Platform → HashRaw
unfolding argon2_hash
argon2_raw p time memory lanes passphrase salt n =
    let res =
      argon2id_hash_raw p (raw_request time memory lanes passphrase salt n)
        (some (replicate n 0)) in
    raw_result n res.code res.hash

module _ (p : Platform) (platform : IsPlatform p) (t m l : ℕ) (passphrase salt : Bytes)
    (params : AreParams t m l) (short : length passphrase ≤ 0xffff_ffff)
    (n : length salt ≡ 16) where
  abbrev q : HashRequest
  q = raw_request t m l passphrase salt 32

  abbrev raw : Result ℕ Bytes
  raw = argon2_raw p t m l passphrase salt 32

  abbrev code : Outcome
  code = (argon2_hash p q (some (replicate 32 0)) none 0).code

  request : 8 * l ≤ m → IsRequest q
  request enough = record {
    pwd_range = short;
    pwd_null = λ e. cc (e);
    pwd_held = ap length (take-all (length passphrase) passphrase (omega arith));
    salt_range = (omega (arith, n), omega (arith, n));
    salt_set = refl;
    salt_held = ap length (take-all (length salt) salt (omega arith));
    hash_range = (omega arith, omega arith);
    time_range = omega (arith, params);
    lanes_range = omega (arith, params);
    memory_range = omega (arith, params, enough);
  }

  raw_err : (e : ErrorCode) → code ≡ err e → raw ≡ err (code_value e)
  unfolding argon2_raw
  raw_err e h = ap (λ c. raw_result 32 c (argon2_hash p q (some (replicate 32 0)) none 0).hash) h

  raw-Fails : Fails p code → (e : ErrorCode) × Fails p (err e) × (raw ≡ err (code_value e))
  raw-Fails (inl (h, f)) = (thread_fail, inl (refl, f), raw_err thread_fail h)
  raw-Fails (inr (h, f)) =
      (memory_allocation_error, inr (refl, f), raw_err memory_allocation_error h)

  -- For parameters within the limits of a bundle the call gives the tag as the key, if there are eight
  -- blocks for each lane; it refuses less memory; or else the platform has failed.
  pub argon2_raw_cases :
      ((8 * l ≤ m)
        × ((key : Bytes) × (argon2_tag (hash_context p q) argon2_id ≡ some key) × (raw ≡ ok key)))
      ⊎ ((m < 8 * l) × (raw ≡ err (code_value memory_too_little)))
      ⊎ ((e : ErrorCode) × Fails p (err e) × (raw ≡ err (code_value e)))
  unfolding argon2_raw
  argon2_raw_cases =
      let cases : (8 * l ≤ m) ⊎ (m < 8 * l) = omega arith in
      elim cases [
        | inl enough ↦
            elim (argon2_hash_raw_total p q platform (request enough) (some (replicate 32 0))) [
              | inl (tag, e, size, r) ↦ inl (
                enough,
                (
                  tag,
                  e,
                  ap (λ h. raw_result 32 h.code h.hash) r
                      ∙ ap ok (
                          ap (bytes_at (write_front tag (some (replicate 32 0)))) (sym size)
                          ∙ bytes_at-write_front tag (some (replicate 32 0)) refl),
                ),
              )
              | inr f ↦ inr (inr (raw-Fails f))
            ]
        | inr less ↦
            elim (argon2_hash_little p q short refl (omega (arith, n)) refl (omega arith)
              (omega (arith, params)) (omega (arith, params)) less (some (replicate 32 0)) none 0) [
                | inl h ↦ inr (inl (less, raw_err memory_too_little h))
                | inr (h, lacks) ↦ inr (inr (raw-Fails (inr (h, lacks))))
              ]
      ]
