-- ===== src/Argon2/Entry/Again.antt =====
-- The call of `argon2_verify` on a hash string: the context that is read from it, and the tag.
use security_core.Common.{
  ℕ, ◌^◌, ◌≡◌, ◌≢◌, ◌≤◌, ◌<◌, refl, sym, ap, ap₂, subst, ◌∙◌, ◌⊎◌, inl, inr, Bool, true, false, not,
  ◌&&◌, Option, some, Bytes, AreBytes, length, take, take-all, ltb, le→ltb, Bool-cases, u32, Result,
  ok, err, ◌>>=◌, ◌>>◌, guard, arith,
}
use security_core.Argon2.Types
use security_core.Argon2.Types.{
  ErrorCode, Context, Argon2Type, memory_allocation_error, verify_mismatch, decoding_fail,
}
use security_core.Argon2.Validate.{is_null}
use security_core.Argon2.Validate.Sound.{IsBuffer, IsValidContext}
use security_core.Argon2.Encoding.{bytes_at, decode_string}
use security_core.Argon2.Encoding.Encode.{hash_string-long, HasBytes, hash_string}
use security_core.Argon2.Encoding.Decode.{
  decoded, decoded-IsValidContext, decode_string-hash_string, bytes_at-write_front,
}
use security_core.Argon2.Index.{make_instance}
use security_core.Argon2.Memory.Init.{initial_hash}
use security_core.Argon2.Memory.Init.Trimmed.{
  IsHeld, trimmed, trimmed_lem, trimmed_context, initial_hash-trimmed,
}
use security_core.Argon2.Memory.Platform.{Platform, decoded_salt, decoded_out, verified_out}
use security_core.Argon2.Entry.{
  Outcome, HashRequest, hash_context, argon2_verify_ctx, verify_context, verify_decoded,
  argon2_verify,
}
use security_core.Argon2.Entry.Tag.{argon2_tag, tag_of, IsPlatform, IsBuffered, Fails, both_rooms}
use security_core.Argon2.Entry.Verify.{argon2_verify_ctx-argon2_tag}
use security_core.Argon2.Entry.Stored.{
  stored_context, stored-IsValidContext, stored_out, stored-HasBytes,
}

-- The guards of `argon2_verify` from the first one on, and from the first `malloc` on.
abbrev from_guards : Bool → Bool → Bool → Result ErrorCode Context → (Context → Outcome) → Outcome
from_guards long_pwd long rooms decoded rest = do
  guard (not long_pwd) Types.pwd_too_long
  guard (not long) decoding_fail
  guard rooms memory_allocation_error
  c ← decoded
  rest c

abbrev from_room : Bool → Bool → Outcome → Outcome
from_room rooms room res = do
  guard rooms memory_allocation_error
  guard room memory_allocation_error
  res

module _ (o p : Platform) (q : HashRequest) (tag : Bytes) (platform : IsPlatform p)
    (valid : IsValidContext (hash_context o q)) (size : length tag ≡ (hash_context o q).outlen)
    (octets : AreBytes tag) (salt : HasBytes (hash_context o q).salt (hash_context o q).saltlen)
    (version : q.version < 2 ^ 32) where
  abbrev c : Context
  c = hash_context o q

  abbrev stored : Context
  stored = stored_context c tag

  salt_set : is_null c.salt ≡ false
  salt_set =
      let (null, low, _) = valid.salt_buffer in
      elim (Bool-cases (is_null c.salt)) [
        | inl e ↦ let z = null e in absurd (omega (arith, z, low))
        | inr e ↦ e
      ]

  module _ (text : Bytes) (is_text : text ≡ hash_string stored q.type)
      (short : length text ≤ 0xffff_ffff) (pwd : Option Bytes) (pwdlen : ℕ)
      (pwd_held : IsHeld pwd pwdlen) (pwd_null : is_null pwd ≡ true → pwdlen ≡ 0)
      (pwd_short : pwdlen ≤ 0xffff_ffff) where
    abbrev receiver : Context
    receiver = verify_context p text pwd pwdlen

    abbrev read : Context
    read = decoded stored receiver

    -- The context with which the tag is computed again, and the one of `argon2_hash` with the other
    -- password.
    abbrev again : Context
    again = record read { out = some (p.garbage verified_out read.outlen) }

    abbrev other : Context
    other = record c { pwd = pwd; pwdlen = u32 pwdlen }

    hash_again : (initial_hash again q.type).0 ≡ (initial_hash other q.type).0
    unfolding initial_hash hash_context verify_context
    hash_again =
        let t = trimmed_context other in
        let hash : ℕ → Option Bytes → ℕ → Option Bytes =
          λ n x k. (initial_hash (record t { outlen = n; salt = x; saltlen = k }) q.type).0 in
        let e_salt : trimmed again.salt again.saltlen ≡ trimmed c.salt c.saltlen =
          ap (λ x. some x) (bytes_at-write_front (bytes_at c.salt c.saltlen) receiver.salt refl)
          ∙ sym (trimmed_lem c.salt c.saltlen salt_set) in
        sym (initial_hash-trimmed again q.type)
        ∙ ap (λ n. hash n (trimmed again.salt again.saltlen) again.saltlen)
            (stored-HasBytes c tag valid size octets).0
        ∙ ap₂ (λ x k. hash c.outlen x k) e_salt salt.0
        ∙ initial_hash-trimmed other q.type

    tag_again : argon2_tag again q.type ≡ argon2_tag other q.type
    unfolding argon2_tag make_instance verify_context hash_context
    tag_again =
        ap (λ n. tag_of (make_instance other q.type) n (initial_hash again q.type).0)
          (stored-HasBytes c tag valid size octets).0
        ∙ ap (tag_of (make_instance other q.type) c.outlen) hash_again

    stored_version : stored.version < 2 ^ 32
    unfolding hash_context
    stored_version = version

    receiver_pwd : IsBuffer receiver.pwd receiver.pwdlen 0
    unfolding verify_context
    receiver_pwd =
        ((λ e. let z = pwd_null e in omega (arith, z)), omega arith, omega (arith, pwd_short))

    decoded_again : decode_string receiver text q.type ≡ ok read
    unfolding verify_context
    decoded_again =
        let (salt_long, out_long) = hash_string-long stored q.type in
        let n = ap length is_text in
        let (salt_size, _) = salt in
        let (out_size, _) = (stored-HasBytes c tag valid size octets) in
        ap (λ t. decode_string receiver t q.type) is_text
        ∙ decode_string-hash_string stored receiver q.type salt
            (stored-HasBytes c tag valid size octets)
            (omega (arith, salt_long, n, salt_size, short))
            (omega (arith, out_long, n, out_size, short))
            (stored-IsValidContext c tag valid size octets) stored_version refl refl receiver_pwd

    read-IsValidContext : IsValidContext read
    unfolding verify_context
    read-IsValidContext =
        let (salt_long, out_long) = hash_string-long stored q.type in
        let n = ap length is_text in
        let (salt_size, _) = salt in
        let (out_size, _) = (stored-HasBytes c tag valid size octets) in
        decoded-IsValidContext stored receiver q.type salt (stored-HasBytes c tag valid size octets)
          (omega (arith, salt_long, n, salt_size, short))
          (omega (arith, out_long, n, out_size, short))
          (stored-IsValidContext c tag valid size octets) stored_version refl refl receiver_pwd

    again-IsValidContext : IsValidContext again
    again-IsValidContext =
        let v = read-IsValidContext in
        record {
          out_set = refl;
          out_range = v.out_range;
          pwd_buffer = v.pwd_buffer;
          salt_buffer = v.salt_buffer;
          secret_buffer = v.secret_buffer;
          ad_buffer = v.ad_buffer;
          memory_range = v.memory_range;
          time_range = v.time_range;
          lanes_range = v.lanes_range;
          threads_range = v.threads_range;
          callbacks = v.callbacks;
        }

    again-IsBuffered : IsBuffered again
    unfolding verify_context
    again-IsBuffered =
        let e : pwdlen ≡ u32 pwdlen = omega (arith, pwd_short) in
        record {
          pwd_held = subst (IsHeld pwd) e pwd_held;
          salt_held =
              ap length (bytes_at-write_front (bytes_at c.salt c.saltlen) receiver.salt refl);
          secret_held = refl;
          ad_held = refl;
        }

    abbrev given : Bytes
    given = bytes_at read.out read.outlen

    given_tag : given ≡ tag
    unfolding verify_context
    given_tag =
        bytes_at-write_front (bytes_at stored.out stored.outlen) receiver.out refl
        ∙ stored_out c tag valid size octets

    -- The code accepts exactly if the other password has the same tag.
    abbrev IsDecided : Outcome → Type 0
    IsDecided res =
        ((res ≡ ok tt) × (argon2_tag other q.type ≡ some tag))
        ⊎ ((res ≡ err verify_mismatch) × (argon2_tag other q.type ≢ some tag))
        ⊎ Fails p res

    decided : IsDecided (argon2_verify_ctx p again given q.type).0
    decided =
        let n = (stored-HasBytes c tag valid size octets).0 in
        let m = ap length given_tag in
        let same : take again.outlen given ≡ tag =
          take-all again.outlen given (omega (arith, n, m, size)) ∙ given_tag in
        elim (argon2_verify_ctx-argon2_tag p again q.type given platform again-IsValidContext
          again-IsBuffered (omega (arith, n, m, size)) (subst AreBytes (sym given_tag) octets)) [
            | inl (res, e) ↦ inl (res, sym tag_again ∙ e ∙ ap (λ x. some x) same)
            | inr (inl (res, ne)) ↦
                inr (inl (res, λ e. ne (tag_again ∙ e ∙ ap (λ x. some x) (sym same))))
            | inr (inr f) ↦ inr (inr f)
          ]

    abbrev rooms : Bool
    rooms = p.malloc decoded_salt (u32 (length text)) && p.malloc decoded_out (u32 (length text))

    verify_from :
        argon2_verify p (some text) pwd pwdlen q.type
        ≡ from_room rooms
            (p.malloc verified_out read.outlen)
            (argon2_verify_ctx p again given q.type).0
    unfolding argon2_verify verify_decoded
    verify_from =
        ap
          (λ a.
            from_guards a (ltb Types.uint32_max (length text)) rooms
              (decode_string receiver text q.type) (verify_decoded p q.type))
          (le→ltb Types.max_pwd_length pwdlen pwd_short)
        ∙ ap
            (λ b.
              from_guards false b rooms (decode_string receiver text q.type)
                (verify_decoded p q.type))
            (le→ltb Types.uint32_max (length text) short)
        ∙ ap (λ r. from_guards false false rooms r (verify_decoded p q.type)) decoded_again

    pub verified : IsDecided (argon2_verify p (some text) pwd pwdlen q.type)
    verified = subst IsDecided (sym verify_from) (elim (Bool-cases rooms) [
      | inr e ↦ inr (
          inr (
            inr (
              ap
                  (λ a.
                    from_room a (p.malloc verified_out read.outlen)
                      (argon2_verify_ctx p again given q.type).0)
                  e,
              both_rooms p (u32 (length text)) e,
            )))
      | inl e ↦ elim (Bool-cases (p.malloc verified_out read.outlen)) [
        | inr f ↦ inr (
            inr (
              inr (
                ap₂ (λ a b. from_room a b (argon2_verify_ctx p again given q.type).0) e f,
                inl (verified_out, read.outlen, f),
              )))
        | inl f ↦
            subst IsDecided
              (sym (ap₂ (λ a b. from_room a b (argon2_verify_ctx p again given q.type).0) e f))
              decided
      ]
    ])
