-- ===== src/Argon2/Entry/Refused.antt =====
-- `argon2_hash` with less memory than eight blocks for each lane.
use security_core.Common.{
  ℕ, ◌*◌, ◌≡◌, ◌≤◌, ◌<◌, refl, ap, ◌∙◌, ◌⊎◌, inl, inr, false, Option, some, Bytes, err, arith,
}
use security_core.Argon2.Types.{memory_allocation_error, memory_too_little}
use security_core.Argon2.Validate.{is_null, validate_inputs}
use security_core.Argon2.Validate.Sound.{validate_inputs_little}
use security_core.Argon2.Memory.Platform.{Platform, hash_out}
use security_core.Argon2.Entry.{
  HashRequest, hash_context, run_ctx, write_hash, run_hash, argon2_ctx, argon2_hash,
}
use security_core.Argon2.Entry.Stored.{hash_guards_cases}
use security_core.Argon2.Entry.Tag.{LacksMemory}

module _ (p : Platform) (q : HashRequest) (pwd_range : q.pwdlen ≤ 0xffff_ffff)
    (pwd_set : is_null q.pwd ≡ false) (salt_range : (8 ≤ q.saltlen) × (q.saltlen ≤ 0xffff_ffff))
    (salt_set : is_null q.salt ≡ false) (hash_range : (4 ≤ q.hashlen) × (q.hashlen ≤ 0xffff_ffff))
    (memory_range : (8 ≤ q.m_cost) × (q.m_cost ≤ 0xffff_ffff)) (lanes : q.parallelism ≤ 0xffffff)
    (less : q.m_cost < 8 * q.parallelism) where
  refused : validate_inputs (some (hash_context p q)) ≡ err memory_too_little
  unfolding hash_context
  refused =
      validate_inputs_little (hash_context p q) refl (omega (arith, hash_range))
        ((λ e. cc (e, pwd_set)), omega arith, omega (arith, pwd_range))
        ((λ e. cc (e, salt_set)), omega (arith, salt_range), omega (arith, salt_range))
        ((λ e. refl), omega arith, omega arith) ((λ e. refl), omega arith, omega arith) memory_range
        lanes less

  -- The call answers ARGON2_MEMORY_TOO_LITTLE, or its first `malloc` has failed.
  pub argon2_hash_little :
      (hash encoded : Option Bytes) (encodedlen : ℕ)
      → let code = (argon2_hash p q hash encoded encodedlen).code in
        (code ≡ err memory_too_little) ⊎ ((code ≡ err memory_allocation_error) × LacksMemory p)
  unfolding argon2_hash argon2_ctx
  argon2_hash_little hash encoded encodedlen =
      let run = run_hash p q hash encoded encodedlen in
      elim (hash_guards_cases p q pwd_range salt_range.1 hash_range) [
        | inl e ↦ inl (
            ap (λ g. (run g).code) e
            ∙ ap
                (λ v.
                  (write_hash q hash encoded encodedlen
                    (run_ctx p (hash_context p q) q.type v)).code)
                refused)
        | inr (e, lacks) ↦ inr (ap (λ g. (run g).code) e, inl (hash_out, q.hashlen, lacks))
      ]
