-- ===== src/Argon2/Validate/Sound.antt =====
-- `validate_inputs` against the restrictions that Sources/CArgon2/include/argon2.h documents.
use security_core.Common.{
  ℕ, ◌*◌, ◌≤◌, ◌<◌, ◌≡◌, refl, ◌↔◌, true, false, Option, some, Bytes, arith, Result, ok, err, ◌>>◌,
}
use security_core.Argon2.Types.{ErrorCode, Context}
use security_core.Argon2.Validate.{
  is_null, validate_output, validate_pwd, validate_salt, validate_secret, validate_ad,
  validate_memory, validate_time, validate_lanes, validate_threads, validate_callbacks,
  validate_inputs,
}

-- A buffer that may be absent: a NULL pointer comes with the length 0.
abbrev pub IsBuffer : Option Bytes → ℕ → ℕ → Type 0
IsBuffer p len least = ((is_null p ≡ true) → len ≡ 0) × (least ≤ len) × (len ≤ 0xffff_ffff)

-- The restrictions, with no arithmetic that wraps.
pub record IsValidContext (c : Context) : Type 0 where
  pub out_set : is_null c.out ≡ false
  pub out_range : (4 ≤ c.outlen) × (c.outlen ≤ 0xffff_ffff)
  pub pwd_buffer : IsBuffer c.pwd c.pwdlen 0
  pub salt_buffer : IsBuffer c.salt c.saltlen 8
  pub secret_buffer : IsBuffer c.secret c.secretlen 0
  pub ad_buffer : IsBuffer c.ad c.adlen 0
  pub memory_range : (8 ≤ c.m_cost) × (c.m_cost ≤ 0xffff_ffff) × (8 * c.lanes ≤ c.m_cost)
  pub time_range : (1 ≤ c.t_cost) × (c.t_cost ≤ 0xffff_ffff)
  pub lanes_range : (1 ≤ c.lanes) × (c.lanes ≤ 0xffffff)
  pub threads_range : (1 ≤ c.threads) × (c.threads ≤ 0xffffff)
  pub callbacks : c.allocate_cbk ≡ c.free_cbk

>>-eq-ok : (m k : Result ErrorCode (Unit {0})) → (m >> k) ≡ ok tt → (m ≡ ok tt) × (k ≡ ok tt)
>>-eq-ok (ok tt) k h = (refl, h)
>>-eq-ok (err e) k h = cc

module _ (c : Context) where
  output_iff :
      (validate_output c ≡ ok tt)
      ↔ ((is_null c.out ≡ false) × (4 ≤ c.outlen) × (c.outlen ≤ 0xffff_ffff))
  unfolding validate_output
  output_iff = ground arith

  pwd_iff : (validate_pwd c ≡ ok tt) ↔ IsBuffer c.pwd c.pwdlen 0
  unfolding validate_pwd
  pwd_iff = ground arith

  salt_iff : (validate_salt c ≡ ok tt) ↔ IsBuffer c.salt c.saltlen 8
  unfolding validate_salt
  salt_iff = ground arith

  secret_iff : (validate_secret c ≡ ok tt) ↔ IsBuffer c.secret c.secretlen 0
  unfolding validate_secret
  secret_iff = ground arith

  ad_iff : (validate_ad c ≡ ok tt) ↔ IsBuffer c.ad c.adlen 0
  unfolding validate_ad
  ad_iff = ground arith

  lanes_iff : (validate_lanes c ≡ ok tt) ↔ ((1 ≤ c.lanes) × (c.lanes ≤ 0xffffff))
  unfolding validate_lanes
  lanes_iff = ground arith

  memory_iff :
      (c.lanes ≤ 0xffffff)
      → (validate_memory c ≡ ok tt)
        ↔ ((8 ≤ c.m_cost) × (c.m_cost ≤ 0xffff_ffff) × (8 * c.lanes ≤ c.m_cost))
  unfolding validate_memory
  memory_iff h = ground arith

  memory_little :
      (8 ≤ c.m_cost) × (c.m_cost ≤ 0xffff_ffff)
      → c.lanes ≤ 0xffffff
      → c.m_cost < 8 * c.lanes
      → validate_memory c ≡ err ErrorCode.memory_too_little
  unfolding validate_memory
  memory_little memory lanes less = ground arith

  time_iff : (validate_time c ≡ ok tt) ↔ ((1 ≤ c.t_cost) × (c.t_cost ≤ 0xffff_ffff))
  unfolding validate_time
  time_iff = ground arith

  threads_iff : (validate_threads c ≡ ok tt) ↔ ((1 ≤ c.threads) × (c.threads ≤ 0xffffff))
  unfolding validate_threads
  threads_iff = ground arith

  callbacks_iff : (validate_callbacks c ≡ ok tt) ↔ (c.allocate_cbk ≡ c.free_cbk)
  unfolding validate_callbacks
  callbacks_iff = ground arith

  accepted_valid : validate_inputs (some c) ≡ ok tt → IsValidContext c
  unfolding validate_inputs
  accepted_valid h =
      let (h1, r1) = >>-eq-ok (validate_output c) _ h in
      let (h2, r2) = >>-eq-ok (validate_pwd c) _ r1 in
      let (h3, r3) = >>-eq-ok (validate_salt c) _ r2 in
      let (h4, r4) = >>-eq-ok (validate_secret c) _ r3 in
      let (h5, r5) = >>-eq-ok (validate_ad c) _ r4 in
      let (h6, r6) = >>-eq-ok (validate_memory c) _ r5 in
      let (h7, r7) = >>-eq-ok (validate_time c) _ r6 in
      let (h8, r8) = >>-eq-ok (validate_lanes c) _ r7 in
      let (h9, h10) = >>-eq-ok (validate_threads c) _ r8 in
      let out = output_iff.0 h1 in
      let lanes = lanes_iff.0 h8 in
      record {
        out_set = out.0;
        out_range = (out.1, out.2);
        pwd_buffer = pwd_iff.0 h2;
        salt_buffer = salt_iff.0 h3;
        secret_buffer = secret_iff.0 h4;
        ad_buffer = ad_iff.0 h5;
        memory_range = (memory_iff lanes.1).0 h6;
        time_range = time_iff.0 h7;
        lanes_range = lanes;
        threads_range = threads_iff.0 h9;
        callbacks = callbacks_iff.0 h10;
      }

  valid_accepted : IsValidContext c → validate_inputs (some c) ≡ ok tt
  unfolding validate_inputs
  valid_accepted v = rw (
    output_iff.1 (v.out_set, v.out_range.0, v.out_range.1),
    pwd_iff.1 v.pwd_buffer,
    salt_iff.1 v.salt_buffer,
    secret_iff.1 v.secret_buffer,
    ad_iff.1 v.ad_buffer,
    (memory_iff v.lanes_range.1).1 v.memory_range,
    time_iff.1 v.time_range,
    lanes_iff.1 v.lanes_range,
    threads_iff.1 v.threads_range,
    callbacks_iff.1 v.callbacks,
  )

pub validate_inputs_iff : (c : Context) → (validate_inputs (some c) ≡ ok tt) ↔ IsValidContext c
validate_inputs_iff c = (accepted_valid c, valid_accepted c)

-- Less memory than eight blocks for each lane is refused.
pub validate_inputs_little :
    (c : Context)
    → is_null c.out ≡ false
    → (4 ≤ c.outlen) × (c.outlen ≤ 0xffff_ffff)
    → IsBuffer c.pwd c.pwdlen 0
    → IsBuffer c.salt c.saltlen 8
    → IsBuffer c.secret c.secretlen 0
    → IsBuffer c.ad c.adlen 0
    → (8 ≤ c.m_cost) × (c.m_cost ≤ 0xffff_ffff)
    → c.lanes ≤ 0xffffff
    → c.m_cost < 8 * c.lanes
    → validate_inputs (some c) ≡ err ErrorCode.memory_too_little
unfolding validate_inputs
validate_inputs_little c set out pwd salt secret ad memory lanes less = rw (
  (output_iff c).1 (set, out.0, out.1),
  (pwd_iff c).1 pwd,
  (salt_iff c).1 salt,
  (secret_iff c).1 secret,
  (ad_iff c).1 ad,
  memory_little c memory lanes less,
)
