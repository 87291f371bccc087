-- ===== src/Bundle/KeyDerivation/Again.antt =====
-- `derive_key` on two platforms, with the hash of Sources/CArgon2.
use security_core.Common.{
  ℕ, ◌≡◌, ◌≤◌, refl, ap, ◌⊎◌, inl, inr, false, ◌==◌, ==_iff, Option, none, some, Bytes, length,
  replicate, ok, err, arith,
}
use security_core.Argon2.Types.{ErrorCode, code_value}
use security_core.Argon2.Index.{make_instance}
use security_core.Argon2.Memory.Init.{initial_hash}
use security_core.Argon2.Memory.Platform.{Platform}
use security_core.Argon2.Entry.{Outcome, HashRequest, hash_context, hash_guards, argon2_hash}
use security_core.Argon2.Entry.Stored.{run_hash-ok, hash_guards-ok}
use security_core.Argon2.Entry.Tag.{argon2_tag, IsPlatform, Fails}
use security_core.Bundle.Limits.{AreParams, parameter_out_of_bounds, hash_failed}
use security_core.Bundle.Failure.{thrown}
use security_core.Bundle.KeyDerivation.{HashRaw, Parameters, derive_key}
use security_core.Bundle.KeyDerivation.Raw.{raw_request, raw_result, argon2_raw, argon2_raw_cases}

raw_result-ok :
    (n : ℕ) (code : Outcome) (hash : Option Bytes) (key : Bytes)
    → raw_result n code hash ≡ ok key
    → code ≡ ok tt
raw_result-ok n (ok tt) hash key h = refl
raw_result-ok n (err e) hash key h = cc

derive_key-ok :
    (hash_raw : HashRaw) (passphrase salt : Bytes) (r : Parameters) (key : Bytes)
    → derive_key hash_raw passphrase salt r ≡ ok key
    → ((length passphrase == 0) ≡ false)
      × (length salt ≡ 16)
      × (hash_raw r.time_cost r.memory_kib r.parallelism passphrase salt 32 ≡ ok key)
unfolding derive_key
derive_key-ok hash_raw passphrase salt r key h = ground arith

-- The tag does not depend on what the platform finds in the buffer.
argon2_tag_same :
    (o p : Platform) (q : HashRequest)
    → argon2_tag (hash_context o q) q.type ≡ argon2_tag (hash_context p q) q.type
unfolding argon2_tag make_instance initial_hash hash_context
argon2_tag_same o p q = refl

module _ (o p : Platform) (given : IsPlatform o) (platform : IsPlatform p) (passphrase salt : Bytes)
    (r : Parameters) (key : Bytes) (params : AreParams r.time_cost r.memory_kib r.parallelism) where
  abbrev q : HashRequest
  q = raw_request r.time_cost r.memory_kib r.parallelism passphrase salt 32

  raw_short :
      argon2_raw o r.time_cost r.memory_kib r.parallelism passphrase salt 32 ≡ ok key
      → length passphrase ≤ 0xffff_ffff
  unfolding argon2_raw argon2_hash
  raw_short h =
      let hash = some (replicate 32 0) in
      let res = argon2_hash o q hash none 0 in
      (hash_guards-ok o q (
        run_hash-ok o q hash none 0 (hash_guards o q) (raw_result-ok 32 res.code res.hash key h))).0

  -- A key that one platform has derived is derived on each other one, unless this one fails.
  pub derive_key_again :
      derive_key (argon2_raw o) passphrase salt r ≡ ok key
      → (derive_key (argon2_raw p) passphrase salt r ≡ ok key)
        ⊎ ((e : ErrorCode) × Fails p (err e)
            × (derive_key (argon2_raw p) passphrase salt r
                ≡ err (thrown (parameter_out_of_bounds (hash_failed (code_value e))))))
  unfolding derive_key
  derive_key_again h =
      let (some_byte, n, raw) = derive_key-ok (argon2_raw o) passphrase salt r key h in
      let short = raw_short raw in
      let sized = (==_iff (length salt) 16).1 n in
      elim (argon2_raw_cases o given r.time_cost r.memory_kib r.parallelism passphrase salt params
        short n) [
          | inr (inl (less, e)) ↦ cc (e, raw)
          | inr (inr (code, f, e)) ↦ cc (e, raw)
          | inl (enough, (first, tag, e)) ↦
              elim (argon2_raw_cases p platform r.time_cost r.memory_kib r.parallelism passphrase
                salt params short n) [
                  | inr (inl (less, _)) ↦ absurd (omega (arith, less, enough))
                  | inr (inr (code, f, e')) ↦ inr (code, f, rw (some_byte, sized, e') refl)
                  | inl (_, (second, tag', e')) ↦
                      let same = argon2_tag_same o p q in
                      let equal : second ≡ key = cc (tag, tag', same, e, raw) in
                      inl (rw (some_byte, sized, e') (ap ok equal))
                ]
        ]
