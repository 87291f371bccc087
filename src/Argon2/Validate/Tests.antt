-- ===== src/Argon2/Validate/Tests.antt =====
-- A context that passes the tests of `validate_inputs`, and one that does not.
use security_core.Common.{◌≡◌, refl, false, none, some, arith, replicate, codes, err}
use security_core.Argon2.Types.{ErrorCode, Context}
use security_core.Argon2.Validate.{
  validate_inputs, validate_output, validate_pwd, validate_salt, validate_secret, validate_ad,
  validate_memory,
}
use security_core.Argon2.Validate.Sound.{IsValidContext}

abbrev pub sample : Context
sample = record {
  out = some (replicate 5 200);
  outlen = 5;
  pwd = some (codes "secret");
  pwdlen = 6;
  salt = some (codes "somesalt");
  saltlen = 8;
  secret = none;
  secretlen = 0;
  ad = none;
  adlen = 0;
  t_cost = 2;
  m_cost = 64;
  lanes = 2;
  threads = 3;
  version = 0x13;
  allocate_cbk = false;
  free_cbk = false;
  flags = 0;
}

pub sample-IsValidContext : IsValidContext sample
sample-IsValidContext = record {
  out_set = refl;
  out_range = (omega arith, omega arith);
  pwd_buffer = (λ e. cc, omega arith, omega arith);
  salt_buffer = (λ e. cc, omega arith, omega arith);
  secret_buffer = (λ e. refl, omega arith, omega arith);
  ad_buffer = (λ e. refl, omega arith, omega arith);
  memory_range = (omega arith, omega arith, omega arith);
  time_range = (omega arith, omega arith);
  lanes_range = (omega arith, omega arith);
  threads_range = (omega arith, omega arith);
  callbacks = refl;
}

-- Eight blocks for each lane are required.
memory_too_little_test :
    validate_inputs (some (record sample { m_cost = 15 })) ≡ err ErrorCode.memory_too_little
unfolding validate_inputs validate_output validate_pwd validate_salt validate_secret validate_ad
    validate_memory
memory_too_little_test = refl
