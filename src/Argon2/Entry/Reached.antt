-- ===== src/Argon2/Entry/Reached.antt =====
-- The run of `argon2_hash` up to its encoding, for arguments within the limits of argon2.h.
use security_core.Common.{
  ℕ, ◌*◌, ◌≡◌, ◌≤◌, refl, sym, ap, ◌∙◌, ◌⊎◌, inl, inr, true, false, Option, some, Bytes, AreBytes,
  length, ok, err, arith,
}
use security_core.Argon2.Types.{ErrorCode, Context}
use security_core.Argon2.Validate.{is_null}
use security_core.Argon2.Validate.Sound.{IsValidContext}
use security_core.Argon2.Encoding.{bytes_at, write_front}
use security_core.Argon2.Encoding.Decode.{bytes_at-write_front}
use security_core.Argon2.Memory.Init.Trimmed.{IsHeld}
use security_core.Argon2.Memory.Platform.{Platform, hash_out}
use security_core.Argon2.Entry.{
  Outcome, argon2_ctx, HashRequest, hash_context, write_hash, run_hash, argon2_hash,
}
use security_core.Argon2.Entry.Tag.{argon2_tag, IsPlatform, IsBuffered, Fails}
use security_core.Argon2.Entry.Tag.Computed.{argon2_ctx-argon2_tag}
use security_core.Argon2.Entry.Stored.{
  hash_guards_cases, stored_context, hash_context-IsBuffered, hash_context_cleared,
}

-- The limits that argon2.h documents, for the arguments of `argon2_hash`.
pub record IsRequest (q : HashRequest) : Type 0 where
  pub pwd_range : q.pwdlen ≤ 0xffff_ffff
  pub pwd_null : is_null q.pwd ≡ true → q.pwdlen ≡ 0
  pub pwd_held : IsHeld q.pwd q.pwdlen
  pub salt_range : (8 ≤ q.saltlen) × (q.saltlen ≤ 0xffff_ffff)
  pub salt_set : is_null q.salt ≡ false
  pub salt_held : IsHeld q.salt q.saltlen
  pub hash_range : (4 ≤ q.hashlen) × (q.hashlen ≤ 0xffff_ffff)
  pub time_range : (1 ≤ q.t_cost) × (q.t_cost ≤ 0xffff_ffff)
  pub lanes_range : (1 ≤ q.parallelism) × (q.parallelism ≤ 0xffffff)
  pub memory_range : (8 * q.parallelism ≤ q.m_cost) × (q.m_cost ≤ 0xffff_ffff)

-- An error of `argon2_ctx` is passed on.
write_fails :
    (q : HashRequest) (hash encoded : Option Bytes) (n : ℕ) (t : Outcome × Context) {e : ErrorCode}
    → t.0 ≡ err e
    → (write_hash q hash encoded n t).code ≡ err e
write_fails q hash encoded n (ok tt, c) h = cc
write_fails q hash encoded n (err e, c) h = h

module _ (p : Platform) (q : HashRequest) (platform : IsPlatform p) (request : IsRequest q) where
  abbrev pub c : Context
  c = hash_context p q

  pub context_valid : IsValidContext c
  unfolding hash_context
  context_valid =
      let r = request in
      let pwd = r.pwd_range in
      let salt = r.salt_range in
      let out = r.hash_range in
      let memory = r.memory_range in
      let lanes = r.lanes_range in
      record {
        out_set = refl;
        out_range = omega (arith, out);
        pwd_buffer =
            ((λ e. let z = r.pwd_null e in omega (arith, z)), omega arith, omega (arith, pwd));
        salt_buffer =
            ((λ e. let z = r.salt_set in cc (e, z)), omega (arith, salt), omega (arith, salt));
        secret_buffer = ((λ e. refl), omega arith, omega arith);
        ad_buffer = ((λ e. refl), omega arith, omega arith);
        memory_range = omega (arith, memory, lanes);
        time_range = r.time_range;
        lanes_range = lanes;
        threads_range = lanes;
        callbacks = refl;
      }

  pub context-IsBuffered : IsBuffered c
  context-IsBuffered =
      let r = request in
      let pwd = r.pwd_range in
      let salt = r.salt_range in
      hash_context-IsBuffered p q r.pwd_held r.salt_held (omega (arith, pwd)) (omega (arith, salt))

  pub outlen_same : c.outlen ≡ q.hashlen
  unfolding hash_context
  outlen_same = let out = request.hash_range in omega (arith, out)

  -- The tag of the context, and the call after `argon2_ctx`.
  pub record IsReached (hash encoded : Option Bytes) (encodedlen : ℕ) : Type 0 where
    pub tag : Bytes
    pub computed : argon2_tag c q.type ≡ some tag
    pub size : length tag ≡ c.outlen
    pub octets : AreBytes tag
    pub reached :
        argon2_hash p q hash encoded encodedlen
        ≡ write_hash q hash encoded encodedlen (ok tt, stored_context c tag)
    pub copied : bytes_at (write_front tag c.out) q.hashlen ≡ tag

  pub hash-IsReached :
      (hash encoded : Option Bytes) (encodedlen : ℕ)
      → IsReached hash encoded encodedlen ⊎ Fails p (argon2_hash p q hash encoded encodedlen).code
  unfolding argon2_hash
  hash-IsReached hash encoded encodedlen =
      let run = run_hash p q hash encoded encodedlen in
      let write = write_hash q hash encoded encodedlen in
      elim (hash_guards_cases p q request.pwd_range request.salt_range.1 request.hash_range) [
        | inr (e, lacks) ↦ inr (inr (ap (λ g. (run g).code) e, inl (hash_out, q.hashlen, lacks)))
        | inl e ↦
            elim (argon2_ctx-argon2_tag p c q.type platform context_valid context-IsBuffered) [
              | inl (tag, computed, n, octets, r) ↦ inl (record {
                tag = tag;
                computed = computed;
                size = n;
                octets = octets;
                reached =
                    ap run e
                    ∙ ap write (
                        r
                        ∙ ap (λ x. (ok tt, record x { out = write_front tag c.out }))
                            (hash_context_cleared p q));
                copied =
                    ap (bytes_at (write_front tag c.out)) (sym outlen_same ∙ sym n)
                    ∙ bytes_at-write_front tag c.out context_valid.out_set;
              })
              | inr (inl (h, f)) ↦ inr (
                  inl (
                    ap (λ g. (run g).code) e
                        ∙ write_fails q hash encoded encodedlen (argon2_ctx p c q.type) h,
                    f,
                  ))
              | inr (inr (h, f)) ↦ inr (
                  inr (
                    ap (λ g. (run g).code) e
                        ∙ write_fails q hash encoded encodedlen (argon2_ctx p c q.type) h,
                    f,
                  ))
            ]
      ]
