-- ===== src/Argon2/Entry/RoundTrip.antt =====
-- `argon2_verify` on what `argon2_hash` has encoded.
use security_core.Common.{
  ℕ, ◌^◌, ◌≡◌, ◌≢◌, ◌≤◌, ◌<◌, sym, ap, subst, ◌∙◌, ◌⊎◌, inl, inr, true, Option, some, [], ◌∷◌, ◌++◌,
  Bytes, length, drop, u32, ok, err, arith,
}
use security_core.Argon2.Types.{verify_mismatch}
use security_core.Argon2.Validate.{is_null}
use security_core.Argon2.Encoding.Encode.{HasBytes}
use security_core.Argon2.Memory.Init.Trimmed.{IsHeld}
use security_core.Argon2.Memory.Platform.{Platform}
use security_core.Argon2.Entry.{Outcome, HashRequest, hash_context, argon2_hash, argon2_verify}
use security_core.Argon2.Entry.Tag.{argon2_tag, IsPlatform, Fails}
use security_core.Argon2.Entry.Stored.{argon2_hash-IsStored, stored_text}
use security_core.Argon2.Entry.Again.{verified}

-- If `argon2_hash` returns ARGON2_OK with a hash string, the string is at the front of the buffer,
-- before a zero byte, and on any platform `argon2_verify` answers a password by ARGON2_OK if its tag,
-- under the salt and the parameters of the call, is the one that was encoded, and by
-- ARGON2_VERIFY_MISMATCH if it is not, or else by the error of a failure of the platform. The buffers are
-- as long as their lengths say, the salt consists of bytes, and the string has fewer than 2^32
-- characters.
pub argon2_verify-argon2_hash :
    (o p : Platform) (q : HashRequest) (hash : Option Bytes) (buffer : Bytes) (encodedlen : ℕ)
    (pwd : Option Bytes) (pwdlen : ℕ)
    → IsPlatform o
    → IsPlatform p
    → 0 < encodedlen
    → encodedlen ≤ 2 ^ 32
    → q.version < 2 ^ 32
    → IsHeld q.pwd q.pwdlen
    → HasBytes q.salt q.saltlen
    → IsHeld pwd pwdlen
    → (is_null pwd ≡ true → pwdlen ≡ 0)
    → pwdlen ≤ 0xffff_ffff
    → (argon2_hash o q hash (some buffer) encodedlen).code ≡ ok tt
    → (text : Bytes) × ((argon2_hash o q hash (some buffer) encodedlen).encoded
        ≡ some ((text ++ (0 ∷ [])) ++ drop (length (text ++ (0 ∷ []))) buffer))
      × let other = record (hash_context o q) { pwd = pwd; pwdlen = pwdlen } in
        let res = argon2_verify p (some text) pwd pwdlen q.type in
        ((res ≡ ok tt) × (argon2_tag other q.type ≡ argon2_tag (hash_context o q) q.type))
        ⊎ ((res ≡ err verify_mismatch)
            × (argon2_tag other q.type ≢ argon2_tag (hash_context o q) q.type))
        ⊎ Fails p res
unfolding hash_context
argon2_verify-argon2_hash o p q hash buffer encodedlen pwd pwdlen po pp room few version pwd_held
      salt held null short done =
    let (s, written) =
      argon2_hash-IsStored o q hash buffer encodedlen po room pwd_held salt.0 done in
    let (_, salt_short, _) = s.lengths in
    let saltlen : q.saltlen ≡ u32 q.saltlen = omega (arith, salt_short) in
    let same_pwdlen : u32 pwdlen ≡ pwdlen = omega (arith, short) in
    let bytes = subst (HasBytes q.salt) saltlen salt in
    let (text_is, less) = stored_text o q encodedlen s room bytes in
    let result =
      verified o p q s.tag pp s.valid s.size s.octets bytes version s.text text_is
        (omega (arith, less, few)) pwd pwdlen held null short in
    let answer : Outcome → ℕ → Type 0 = λ res n.
      ((res ≡ ok tt)
        × (argon2_tag (record (hash_context o q) { pwd = pwd; pwdlen = n }) q.type ≡ some s.tag))
      ⊎ ((res ≡ err verify_mismatch)
          × (argon2_tag (record (hash_context o q) { pwd = pwd; pwdlen = n }) q.type ≢ some s.tag))
      ⊎ Fails p res in
    let res = argon2_verify p (some s.text) pwd pwdlen q.type in
    (
      s.text,
      written,
      subst
          (λ t.
            ((res ≡ ok tt)
              × (argon2_tag (record (hash_context o q) { pwd = pwd; pwdlen = pwdlen }) q.type ≡ t))
            ⊎ ((res ≡ err verify_mismatch)
                × (argon2_tag (record (hash_context o q) { pwd = pwd; pwdlen = pwdlen }) q.type
                    ≢ t))
            ⊎ Fails p res)
          (sym s.computed) (subst (answer res) same_pwdlen result),
    )

-- A password that `argon2_hash` has encoded is accepted by `argon2_verify` on every platform, unless
-- the platform fails; the conditions are those of the theorem above.
pub argon2_verify_same :
    (o p : Platform) (q : HashRequest) (hash : Option Bytes) (buffer : Bytes) (encodedlen : ℕ)
    → IsPlatform o
    → IsPlatform p
    → 0 < encodedlen
    → encodedlen ≤ 2 ^ 32
    → q.version < 2 ^ 32
    → IsHeld q.pwd q.pwdlen
    → HasBytes q.salt q.saltlen
    → (argon2_hash o q hash (some buffer) encodedlen).code ≡ ok tt
    → (text : Bytes) × ((argon2_hash o q hash (some buffer) encodedlen).encoded
        ≡ some ((text ++ (0 ∷ [])) ++ drop (length (text ++ (0 ∷ []))) buffer))
      × let res = argon2_verify p (some text) q.pwd q.pwdlen q.type in ((res ≡ ok tt) ⊎ Fails p res)
unfolding hash_context
argon2_verify_same o p q hash buffer encodedlen po pp room few version held salt done =
    let (s, _) = argon2_hash-IsStored o q hash buffer encodedlen po room held salt.0 done in
    let (pwd_short, _, _) = s.lengths in
    let same_pwdlen : q.pwdlen ≡ u32 q.pwdlen = omega (arith, pwd_short) in
    let valid = s.valid in
    let null : is_null q.pwd ≡ true → q.pwdlen ≡ 0 = λ e. same_pwdlen ∙ valid.pwd_buffer.0 e in
    let (text, written, result) =
      argon2_verify-argon2_hash o p q hash buffer encodedlen q.pwd q.pwdlen po pp room few version
        held salt held null pwd_short done in
    (
      text,
      written,
      elim result [
        | inl (e, _) ↦ inl e
        | inr (inl (e, ne)) ↦ absurd (
            ne (ap (λ n. argon2_tag (record (hash_context o q) { pwdlen = n }) q.type) same_pwdlen))
        | inr (inr f) ↦ inr f
      ],
    )
