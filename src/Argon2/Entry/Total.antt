-- ===== src/Argon2/Entry/Total.antt =====
-- When `argon2_hash` succeeds, and what it writes.
use security_core.Common.{
  ℕ, ◌+◌, ◌≡◌, ◌≤◌, ◌<◌, refl, ap, ap₂, subst, ◌∙◌, ◌⊎◌, inl, inr, true, false, not, ◌&&◌, Option,
  none, some, [], ◌∷◌, ◌++◌, Bytes, AreBytes, length, drop, replicate, ◌==◌, ==_iff, if◌then◌else◌,
  u32, Result, ok, err, arith, Bool, Bool-cases, length-append, length-replicate,
}
use security_core.Argon2.Types
use security_core.Argon2.Types.{ErrorCode, Context, encoding_fail}
use security_core.Argon2.Encoding.{bytes_at, write_front, encode_string, argon2_encodedlen}
use security_core.Argon2.Encoding.Encode.{
  HasBytes, hash_string, length-hash_string, encode_string-argon2_encodedlen,
}
use security_core.Argon2.Memory.Platform.{Platform}
use security_core.Argon2.Entry.{HashRequest, Hashed, hash_context, write_encoded, argon2_hash}
use security_core.Argon2.Entry.Tag.{argon2_tag, IsPlatform, Fails}
use security_core.Argon2.Entry.Stored.{stored_context, stored-IsValidContext, stored-HasBytes}
use security_core.Argon2.Entry.Reached.{
  IsRequest, IsReached, context_valid, outlen_same, hash-IsReached,
}

module _ (p : Platform) (q : HashRequest) (platform : IsPlatform p) (request : IsRequest q) where
  abbrev c : Context
  c = hash_context p q

  -- For arguments within the documented limits, a raw hash is the tag of `hashlen` bytes at the front of
  -- the buffer, with ARGON2_OK, or else the platform has failed, and the code says how.
  pub argon2_hash_raw_total :
      (hash : Option Bytes)
      → ((tag : Bytes) × (argon2_tag (hash_context p q) q.type ≡ some tag)
          × (length tag ≡ q.hashlen)
          × (argon2_hash p q hash none 0
              ≡ record { code = ok tt; hash = write_front tag hash; encoded = none }))
        ⊎ Fails p (argon2_hash p q hash none 0).code
  argon2_hash_raw_total hash = elim (hash-IsReached p q platform request hash none 0) [
    | inl r ↦ inl (
      r.tag,
      r.computed,
      r.size ∙ outlen_same p q platform request,
      r.reached
          ∙ ap (λ x. record { code = ok tt; hash = write_front x hash; encoded = none }) r.copied,
    )
    | inr f ↦ inr f
  ]

  -- The length of the text and its zero byte, from the arguments.
  abbrev needed : ℕ
  needed = argon2_encodedlen q.t_cost q.m_cost q.parallelism q.saltlen q.hashlen q.type

  encoded_same : argon2_encodedlen c.t_cost c.m_cost c.lanes c.saltlen c.outlen q.type ≡ needed
  unfolding hash_context
  encoded_same =
      let salt = request.salt_range in
      let saltlen : u32 q.saltlen ≡ q.saltlen = omega (arith, salt) in
      ap₂ (λ s o. argon2_encodedlen q.t_cost q.m_cost q.parallelism s o q.type) saltlen
        (outlen_same p q platform request)

  abbrev text_of : Bytes → Bytes
  text_of tag = hash_string (stored_context c tag) q.type

  module _ (hash : Option Bytes) (buffer : Bytes) (encodedlen : ℕ)
      (r : IsReached p q platform request hash (some buffer) encodedlen) where
    -- The call from the answer of `encode_string` on.
    abbrev encoding : Bool → Result ErrorCode Bytes → Hashed
    encoding nothing e =
        if true && not nothing
        then write_encoded encodedlen (write_front r.tag hash) (some buffer) e
        else record { code = ok tt; hash = write_front r.tag hash; encoded = some buffer }

    encoding_lem :
        argon2_hash p q hash (some buffer) encodedlen
        ≡ encoding (encodedlen == 0) (encode_string encodedlen (stored_context c r.tag) q.type)
    encoding_lem =
        r.reached
        ∙ ap
            (λ x.
              if true && not (encodedlen == 0)
              then write_encoded encodedlen (write_front x hash) (some buffer)
                  (encode_string encodedlen (stored_context c r.tag) q.type)
              else record { code = ok tt; hash = write_front x hash; encoded = some buffer })
            r.copied

    text_cases :
        q.version ≡ Types.version_13
        → AreBytes (bytes_at q.salt q.saltlen)
        → let text = text_of r.tag in
          (length text + 1 ≡ needed)
          × (0 < encodedlen
              → ((needed ≤ encodedlen)
                  × (encode_string encodedlen (stored_context c r.tag) q.type ≡ ok text))
                ⊎ ((encodedlen < needed)
                    × (encode_string encodedlen (stored_context c r.tag) q.type
                        ≡ err encoding_fail)))
    unfolding hash_context
    text_cases version salt =
        let range = request.salt_range in
        let saltlen : q.saltlen ≡ u32 q.saltlen = omega (arith, range) in
        let bytes = subst (HasBytes q.salt) saltlen (request.salt_held, salt) in
        let good = context_valid p q platform request in
        let valid = stored-IsValidContext c r.tag good r.size r.octets in
        let out = stored-HasBytes c r.tag good r.size r.octets in
        let stored = stored_context c r.tag in
        (
          length-hash_string stored q.type version (omega (arith, valid)) (omega (arith, valid))
                (omega (arith, valid)) bytes out
              ∙ encoded_same,
          λ pos.
              elim (encode_string-argon2_encodedlen encodedlen stored q.type pos valid version bytes
                out) [
                  | inl (fits, e) ↦ inl (subst (λ n. n ≤ encodedlen) encoded_same fits, e)
                  | inr (full, e) ↦ inr (subst (λ n. encodedlen < n) encoded_same full, e)
                ],
        )

  -- For arguments within the documented limits, the current version and a salt of bytes, `argon2_hash`
  -- writes the tag to the front of `hash`. If `encodedlen` is 0, it returns ARGON2_OK and leaves the
  -- other buffer as it is. If that buffer has the `argon2_encodedlen` bytes, it returns ARGON2_OK, and
  -- the hash string of the tag, with a zero byte, is at the front, `argon2_encodedlen` bytes in all.
  -- Otherwise it returns ARGON2_ENCODING_FAIL and clears the buffer. Or else the platform has failed,
  -- and the code says how.
  pub argon2_hash_encoded_total :
      (hash : Option Bytes) (buffer : Bytes) (encodedlen : ℕ)
      → q.version ≡ Types.version_13
      → AreBytes (bytes_at q.salt q.saltlen)
      → let wanted = argon2_encodedlen q.t_cost q.m_cost q.parallelism q.saltlen q.hashlen q.type in
        let res = argon2_hash p q hash (some buffer) encodedlen in
        ((tag : Bytes) × (argon2_tag (hash_context p q) q.type ≡ some tag)
          × let text = hash_string (stored_context (hash_context p q) tag) q.type in
            (length (text ++ (0 ∷ [])) ≡ wanted)
            × (((encodedlen ≡ 0)
                  × (res ≡ record {
                    code = ok tt;
                    hash = write_front tag hash;
                    encoded = some buffer;
                  }))
                ⊎ ((wanted ≤ encodedlen)
                    × (res ≡ record {
                      code = ok tt;
                      hash = write_front tag hash;
                      encoded = some ((text ++ (0 ∷ [])) ++ drop wanted buffer);
                    }))
                ⊎ ((0 < encodedlen)
                    × (encodedlen < wanted)
                    × (res ≡ record {
                      code = err encoding_fail;
                      hash = write_front tag hash;
                      encoded = some (replicate encodedlen 0 ++ drop encodedlen buffer);
                    }))))
        ⊎ Fails p res.code
  argon2_hash_encoded_total hash buffer encodedlen version salt =
      elim (hash-IsReached p q platform request hash (some buffer) encodedlen) [
        | inr f ↦ inr f
        | inl r ↦
            let (len, cases) = text_cases hash buffer encodedlen r version salt in
            let call = encoding hash buffer encodedlen r in
            let start = encoding_lem hash buffer encodedlen r in
            let string = encode_string encodedlen (stored_context c r.tag) q.type in
            let all = text_of r.tag ++ (0 ∷ []) in
            let whole : length all ≡ needed = length-append (text_of r.tag) (0 ∷ []) ∙ len in
            let from : (b : Bool) (e : Result ErrorCode Bytes)
                → (encodedlen == 0) ≡ b
                → string ≡ e
                → argon2_hash p q hash (some buffer) encodedlen ≡ call b e =
              λ b e hb he. start ∙ ap (λ b. call b string) hb ∙ ap (call b) he in
            inl (
              r.tag,
              r.computed,
              (
                whole,
                elim (Bool-cases (encodedlen == 0)) [
                  | inl e ↦ inl ((==_iff encodedlen 0).0 e, from true string e refl)
                  | inr e ↦
                      let pos : 0 < encodedlen = ground (arith, e) in
                      elim (cases pos) [
                        | inl (fits, he) ↦ inr (
                            inl (
                              fits,
                              from false (ok (text_of r.tag)) e he
                                  ∙ ap
                                      (λ n. record {
                                        code = ok tt;
                                        hash = write_front r.tag hash;
                                        encoded = some (all ++ drop n buffer);
                                      })
                                      whole,
                            ))
                        | inr (full, he) ↦ inr (
                            inr (
                              pos,
                              full,
                              from false (err encoding_fail) e he
                                  ∙ ap
                                      (λ n. record {
                                        code = err encoding_fail;
                                        hash = write_front r.tag hash;
                                        encoded = some (replicate encodedlen 0 ++ drop n buffer);
                                      })
                                      (length-replicate encodedlen 0),
                            ))
                      ]
                ],
              ),
            )
      ]
