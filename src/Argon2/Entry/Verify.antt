-- ===== src/Argon2/Entry/Verify.antt =====
-- `argon2_verify_ctx`: the comparison of the tag that is computed with the one that is given.
use security_core.Common.{
  ℕ, ◌≡◌, ◌≢◌, ◌≤◌, ◌<◌, refl, sym, ap, ap₂, ◌∙◌, ◌⊎◌, inl, inr, Bool, true, false, some, Bytes,
  AreBytes, All-take, take, length, length-take, ◌==◌, ==_iff, Bool-cases, if◌then◌else◌, ok, err,
  arith,
}
use security_core.Argon2.Types.{ErrorCode, Context, Argon2Type, verify_mismatch}
use security_core.Argon2.Validate.Sound.{IsValidContext}
use security_core.Argon2.Compare.{argon2_compare, argon2_compare_iff}
use security_core.Argon2.Encoding.{bytes_at, write_front}
use security_core.Argon2.Encoding.Decode.{bytes_at-write_front}
use security_core.Argon2.Memory.Platform.{Platform}
use security_core.Argon2.Entry.{Outcome, argon2_ctx, compare_ctx, argon2_verify_ctx}
use security_core.Argon2.Entry.Tag.{
  argon2_tag, cleared_context, IsPlatform, IsBuffered, Fails, cleared_context-KeepsOut,
}
use security_core.Argon2.Entry.Tag.Computed.{argon2_ctx-argon2_tag}

abbrev compare_result : Outcome → Context → Outcome × Context
compare_result res c = (res, c)

abbrev verdict : Bool → Context → Outcome
verdict b r = (if b then compare_result (ok tt) r else compare_result (err verify_mismatch) r).0

verdict_lem : (b : Bool) (r : Context) → verdict b r ≡ (if b then ok tt else err verify_mismatch)
verdict_lem true r = refl
verdict_lem false r = refl

-- An error of `argon2_ctx` is passed on.
fails_too :
    (hash : Bytes) (t : Outcome × Context) {e : ErrorCode}
    → t.0 ≡ err e
    → (compare_ctx hash t).0 ≡ err e
fails_too hash (ok x, c) h = cc
fails_too hash (err e, c) h = h

module _ (p : Platform) (c : Context) (type : Argon2Type) (hash : Bytes) (platform : IsPlatform p)
    (valid : IsValidContext c) (buffered : IsBuffered c) (long : c.outlen ≤ length hash)
    (bytes : AreBytes hash) where
  -- What the comparison compares.
  compared :
      (tag : Bytes)
      → length tag ≡ c.outlen
      → argon2_ctx p c type ≡ (ok tt, record (cleared_context c) { out = write_front tag c.out })
      → (argon2_verify_ctx p c hash type).0
        ≡ (if argon2_compare (take c.outlen hash) tag == 0 then ok tt else err verify_mismatch)
  unfolding argon2_verify_ctx
  compared tag n e =
      let r = record (cleared_context c) { out = write_front tag c.out } in
      let kept = cleared_context-KeepsOut c in
      let there : bytes_at (write_front tag c.out) r.outlen ≡ tag =
        ap (bytes_at (write_front tag c.out)) (kept.1 ∙ sym n)
        ∙ bytes_at-write_front tag c.out valid.out_set in
      ap (λ t. (compare_ctx hash t).0) e
      ∙ ap₂ (λ x y. verdict (argon2_compare x y == 0) r) (ap (λ (k : ℕ). take k hash) kept.1) there
      ∙ verdict_lem (argon2_compare (take c.outlen hash) tag == 0) r

  compared_cases :
      (tag : Bytes)
      → length tag ≡ c.outlen
      → AreBytes tag
      → argon2_ctx p c type ≡ (ok tt, record (cleared_context c) { out = write_front tag c.out })
      → (((argon2_verify_ctx p c hash type).0 ≡ ok tt) × (tag ≡ take c.outlen hash))
        ⊎ (((argon2_verify_ctx p c hash type).0 ≡ err verify_mismatch) × (tag ≢ take c.outlen hash))
  compared_cases tag n octets e =
      let given = take c.outlen hash in
      let result = compared tag n e in
      let same =
        argon2_compare_iff given tag (All-take (λ b. b < 256) c.outlen hash bytes) octets
          (omega (arith, length-take c.outlen hash, n, long)) in
      elim (Bool-cases (argon2_compare given tag == 0)) [
        | inl t ↦
            let z = (==_iff (argon2_compare given tag) 0).0 t in
            inl (result ∙ ap (λ b. if b then ok tt else err verify_mismatch) t, sym (same.0 z))
        | inr f ↦ inr (
          result ∙ ap (λ b. if b then ok tt else err verify_mismatch) f,
          λ eq. let t = (==_iff (argon2_compare given tag) 0).1 (same.1 (sym eq)) in cc (t, f),
        )
      ]

  -- On a valid context and a tag of `outlen` bytes at least, `argon2_verify_ctx` returns ARGON2_OK if
  -- the first `outlen` bytes are the tag of the context, and ARGON2_VERIFY_MISMATCH if they are not, or
  -- else the error of a failure of the platform.
  pub argon2_verify_ctx-argon2_tag :
      (((argon2_verify_ctx p c hash type).0 ≡ ok tt)
        × (argon2_tag c type ≡ some (take c.outlen hash)))
      ⊎ (((argon2_verify_ctx p c hash type).0 ≡ err verify_mismatch)
          × (argon2_tag c type ≢ some (take c.outlen hash)))
      ⊎ Fails p (argon2_verify_ctx p c hash type).0
  unfolding argon2_verify_ctx
  argon2_verify_ctx-argon2_tag = elim (argon2_ctx-argon2_tag p c type platform valid buffered) [
    | inl (tag, e, n, octets, r) ↦ elim (compared_cases tag n octets r) [
      | inl (res, same) ↦ inl (res, e ∙ ap (λ t. some t) same)
      | inr (res, ne) ↦ inr (inl (res, λ z. ne (cc (e, z))))
    ]
    | inr (inl (h, f)) ↦ inr (inr (inl (fails_too _ _ h, f)))
    | inr (inr (h, f)) ↦ inr (inr (inr (fails_too _ _ h, f)))
  ]
