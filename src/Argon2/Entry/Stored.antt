-- ===== src/Argon2/Entry/Stored.antt =====
-- What a successful call of `argon2_hash` has written.
use security_core.Common.{
  ℕ, ◌≡◌, ◌≤◌, ◌<◌, refl, sym, ap, subst, ◌∙◌, ◌⊎◌, inl, inr, true, false, not, ◌&&◌, Option, none,
  some, [], ◌∷◌, ◌++◌, Bytes, AreBytes, length, ◌==◌, ne→==, if◌then◌else◌, u32, Result, ok, err,
  arith,
}
use security_core.Argon2.Types
use security_core.Argon2.Types.{ErrorCode, Context, memory_allocation_error}
use security_core.Argon2.Validate.{validate_inputs}
use security_core.Argon2.Validate.Sound.{IsValidContext, validate_inputs_iff}
use security_core.Argon2.Encoding.{bytes_at, write_front, encode_string}
use security_core.Argon2.Encoding.Encode.{HasBytes, hash_string, encode_string-hash_string}
use security_core.Argon2.Encoding.Decode.{bytes_at-write_front, is_null-write_front}
use security_core.Argon2.Memory.Init.{clear_password, clear_secret, wiped}
use security_core.Argon2.Memory.Init.Trimmed.{IsHeld}
use security_core.Argon2.Memory.Platform.{Platform, hash_out}
use security_core.Argon2.Entry.{
  Outcome, run_ctx, argon2_ctx, HashRequest, hash_context, hash_guards, write_encoded, write_hash,
  run_hash, argon2_hash,
}
use security_core.Argon2.Entry.Tag.{argon2_tag, cleared_context, IsPlatform, IsBuffered}
use security_core.Argon2.Entry.Tag.Computed.{argon2_ctx-argon2_tag}

-- The context after the tag has been written.
abbrev pub stored_context : Context → Bytes → Context
stored_context c tag = record c { out = write_front tag c.out }

-- Only a success of a step leads to a success of the rest.
pub run_hash-ok :
    (p : Platform) (q : HashRequest) (hash encoded : Option Bytes) (n : ℕ) (g : Outcome)
    → (run_hash p q hash encoded n g).code ≡ ok tt
    → g ≡ ok tt
run_hash-ok p q hash encoded n (ok tt) h = refl
run_hash-ok p q hash encoded n (err e) h = cc

write_hash-ok :
    (q : HashRequest) (hash encoded : Option Bytes) (n : ℕ) (t : Outcome × Context)
    → (write_hash q hash encoded n t).code ≡ ok tt
    → t.0 ≡ ok tt
write_hash-ok q hash encoded n (ok tt, c) h = refl
write_hash-ok q hash encoded n (err e, c) h = cc

run_ctx-ok :
    (p : Platform) (c : Context) (type : Types.Argon2Type) (v : Outcome)
    → (run_ctx p c type v).0 ≡ ok tt
    → v ≡ ok tt
run_ctx-ok p c type (ok tt) h = refl
run_ctx-ok p c type (err e) h = cc

write_encoded-ok :
    (n : ℕ) (hash encoded : Option Bytes) (r : Result ErrorCode Bytes)
    → (write_encoded n hash encoded r).code ≡ ok tt
    → (text : Bytes) × (r ≡ ok text)
      × ((write_encoded n hash encoded r).encoded ≡ write_front (text ++ (0 ∷ [])) encoded)
write_encoded-ok n hash encoded (ok text) h = (text, refl, refl)
write_encoded-ok n hash encoded (err e) h = cc

-- Without flags nothing is cleared.
kept :
    (o : Option Bytes) (c : Context) (f : Bytes → Context)
    → elim o [ none ↦ c | some x ↦ if true then c else f x ] ≡ c
kept none c f = refl
kept (some x) c f = refl

cleared_context_same : (c : Context) → let d = record c { flags = 0 } in cleared_context d ≡ d
unfolding clear_password clear_secret
cleared_context_same c =
    let d = record c { flags = 0 } in
    ap clear_secret (kept c.pwd d (λ x. record d { pwd = some (wiped x c.pwdlen); pwdlen = 0 }))
    ∙ kept c.secret d (λ x. record d { secret = some (wiped x c.secretlen); secretlen = 0 })

pub hash_context_cleared :
    (p : Platform) (q : HashRequest) → cleared_context (hash_context p q) ≡ hash_context p q
unfolding hash_context
hash_context_cleared p q = cleared_context_same (hash_context p q)

pub hash_context-IsBuffered :
    (p : Platform) (q : HashRequest)
    → IsHeld q.pwd q.pwdlen
    → IsHeld q.salt q.saltlen
    → q.pwdlen ≤ 0xffff_ffff
    → q.saltlen ≤ 0xffff_ffff
    → IsBuffered (hash_context p q)
unfolding hash_context
hash_context-IsBuffered p q pwd_held salt_held pwd salt =
    let pwdlen : q.pwdlen ≡ u32 q.pwdlen = omega (arith, pwd) in
    let saltlen : q.saltlen ≡ u32 q.saltlen = omega (arith, salt) in
    record {
      pwd_held = subst (IsHeld q.pwd) pwdlen pwd_held;
      salt_held = subst (IsHeld q.salt) saltlen salt_held;
      secret_held = refl;
      ad_held = refl;
    }

pub hash_guards-ok :
    (p : Platform) (q : HashRequest)
    → hash_guards p q ≡ ok tt
    → (q.pwdlen ≤ 0xffff_ffff)
      × (q.saltlen ≤ 0xffff_ffff)
      × (4 ≤ q.hashlen)
      × (q.hashlen ≤ 0xffff_ffff)
unfolding hash_guards
hash_guards-ok p q h = ground arith

pub hash_guards_cases :
    (p : Platform) (q : HashRequest)
    → q.pwdlen ≤ 0xffff_ffff
    → q.saltlen ≤ 0xffff_ffff
    → (4 ≤ q.hashlen) × (q.hashlen ≤ 0xffff_ffff)
    → (hash_guards p q ≡ ok tt)
      ⊎ ((hash_guards p q ≡ err memory_allocation_error) × (p.malloc hash_out q.hashlen ≡ false))
unfolding hash_guards
hash_guards_cases p q pwd salt out = ground arith

-- The tag and the text of a call that has succeeded.
pub record IsStored (p : Platform) (q : HashRequest) (encodedlen : ℕ) : Type 0 where
  pub tag : Bytes
  pub text : Bytes
  pub lengths : (q.pwdlen ≤ 0xffff_ffff) × (q.saltlen ≤ 0xffff_ffff) × (q.hashlen ≤ 0xffff_ffff)
  pub valid : IsValidContext (hash_context p q)
  pub computed : argon2_tag (hash_context p q) q.type ≡ some tag
  pub size : length tag ≡ (hash_context p q).outlen
  pub octets : AreBytes tag
  pub encoded : encode_string encodedlen (stored_context (hash_context p q) tag) q.type ≡ ok text

module _ (p : Platform) (q : HashRequest) (hash : Option Bytes) (buffer : Bytes) (encodedlen : ℕ)
    (platform : IsPlatform p) (room : 0 < encodedlen) (pwd_held : IsHeld q.pwd q.pwdlen)
    (salt_held : IsHeld q.salt q.saltlen)
    (done : (argon2_hash p q hash (some buffer) encodedlen).code ≡ ok tt) where
  guards_passed : hash_guards p q ≡ ok tt
  unfolding argon2_hash
  guards_passed = run_hash-ok p q hash (some buffer) encodedlen (hash_guards p q) done

  abbrev context_of : Context
  context_of = hash_context p q

  written :
      argon2_hash p q hash (some buffer) encodedlen
      ≡ write_hash q hash (some buffer) encodedlen (argon2_ctx p context_of q.type)
  unfolding argon2_hash
  written = ap (run_hash p q hash (some buffer) encodedlen) guards_passed

  ctx_passed : (argon2_ctx p context_of q.type).0 ≡ ok tt
  ctx_passed =
      write_hash-ok q hash (some buffer) encodedlen (argon2_ctx p context_of q.type)
        (ap (λ r. r.code) (sym written) ∙ done)

  context_valid : IsValidContext context_of
  unfolding argon2_ctx
  context_valid =
      (validate_inputs_iff context_of).0
        (run_ctx-ok p context_of q.type (validate_inputs (some context_of)) ctx_passed)

  context-IsBuffered : IsBuffered context_of
  context-IsBuffered =
      let (pwd, salt, _, _) = hash_guards-ok p q guards_passed in
      hash_context-IsBuffered p q pwd_held salt_held pwd salt

  -- From the context with the tag on.
  text_of :
      (tag : Bytes)
      → argon2_ctx p context_of q.type
        ≡ (ok tt, record (cleared_context context_of) { out = write_front tag context_of.out })
      → (text : Bytes) × (encode_string encodedlen (stored_context context_of tag) q.type ≡ ok text)
        × ((argon2_hash p q hash (some buffer) encodedlen).encoded
            ≡ write_front (text ++ (0 ∷ [])) (some buffer))
  text_of tag e =
      let r = stored_context context_of tag in
      let hash' = write_front (bytes_at r.out q.hashlen) hash in
      let encoding =
        write_encoded encodedlen hash' (some buffer) (encode_string encodedlen r q.type) in
      let asked : (encodedlen == 0) ≡ false = ne→== encodedlen 0 (λ z. omega (arith, z, room)) in
      let all : argon2_hash p q hash (some buffer) encodedlen ≡ encoding =
        written
        ∙ ap (write_hash q hash (some buffer) encodedlen) (
            e
            ∙ ap (λ c. (ok tt, record c { out = write_front tag context_of.out }))
                (hash_context_cleared p q))
        ∙ ap
            (λ b.
              if true && not b
              then encoding
              else record { code = ok tt; hash = hash'; encoded = some buffer })
            asked in
      let (text, ok_text, buffers) =
        write_encoded-ok encodedlen hash' (some buffer) (encode_string encodedlen r q.type)
          (ap (λ r. r.code) (sym all) ∙ done) in
      (text, ok_text, ap (λ r. r.encoded) all ∙ buffers)

  -- A call of `argon2_hash` that returns ARGON2_OK has encoded the tag of its context, and the buffer
  -- begins with the text and a zero byte.
  pub argon2_hash-IsStored :
      (s : IsStored p q encodedlen) × ((argon2_hash p q hash (some buffer) encodedlen).encoded
        ≡ write_front (s.text ++ (0 ∷ [])) (some buffer))
  argon2_hash-IsStored =
      elim (argon2_ctx-argon2_tag p context_of q.type platform context_valid context-IsBuffered) [
        | inl (tag, e, n, octets, r) ↦
            let (pwd, salt, low, high) = hash_guards-ok p q guards_passed in
            let (text, encoded, buffers) = text_of tag r in
            (
              record {
                tag = tag;
                text = text;
                lengths = (pwd, salt, high);
                valid = context_valid;
                computed = e;
                size = n;
                octets = octets;
                encoded = encoded;
              },
              buffers,
            )
        | inr (inl (h, f)) ↦ cc (ctx_passed, h)
        | inr (inr (h, f)) ↦ cc (ctx_passed, h)
      ]

module _ (c : Context) (tag : Bytes) (valid : IsValidContext c) (size : length tag ≡ c.outlen)
    (octets : AreBytes tag) where
  abbrev stored : Context
  stored = stored_context c tag

  pub stored-IsValidContext : IsValidContext stored
  stored-IsValidContext =
      let v = valid in
      record {
        out_set = is_null-write_front tag c.out ∙ v.out_set;
        out_range = v.out_range;
        pwd_buffer = v.pwd_buffer;
        salt_buffer = v.salt_buffer;
        secret_buffer = v.secret_buffer;
        ad_buffer = v.ad_buffer;
        memory_range = v.memory_range;
        time_range = v.time_range;
        lanes_range = v.lanes_range;
        threads_range = v.threads_range;
        callbacks = v.callbacks;
      }

  pub stored_out : bytes_at stored.out stored.outlen ≡ tag
  stored_out = ap (bytes_at stored.out) (sym size) ∙ bytes_at-write_front tag c.out valid.out_set

  pub stored-HasBytes : HasBytes stored.out stored.outlen
  stored-HasBytes = (ap length stored_out ∙ size, subst AreBytes (sym stored_out) octets)

-- The text is the hash string of the context with the tag.
pub stored_text :
    (p : Platform) (q : HashRequest) (encodedlen : ℕ) (s : IsStored p q encodedlen)
    → 0 < encodedlen
    → HasBytes (hash_context p q).salt (hash_context p q).saltlen
    → (s.text ≡ hash_string (stored_context (hash_context p q) s.tag) q.type)
      × (length s.text < encodedlen)
stored_text p q encodedlen s room salt =
    let c = stored_context (hash_context p q) s.tag in
    let valid = stored-IsValidContext (hash_context p q) s.tag s.valid s.size s.octets in
    let out = stored-HasBytes (hash_context p q) s.tag s.valid s.size s.octets in
    let encoded = s.encoded in
    elim (encode_string-hash_string encodedlen c q.type room salt.1 out.1
      ((validate_inputs_iff c).1 valid)) [
        | inl (fits, w) ↦
            let e : s.text ≡ hash_string c q.type = cc (w, encoded) in
            (e, subst (λ t. length t < encodedlen) (sym e) fits)
        | inr (full, w) ↦ cc (w, encoded)
      ]
