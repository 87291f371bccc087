-- ===== src/Argon2/Validate.antt =====
-- `validate_inputs` of Sources/CArgon2/core.c, one function for each group of its tests.
pub mod Sound
pub mod Tests
use security_core.Common.{
  ℕ, ◌*◌, Bool, true, false, not, ◌&&◌, Option, none, some, Bytes, ltb, ◌==◌, Result, ok, err, ◌>>◌,
  guard, ◌>>=◌, u32,
}
use security_core.Argon2.Types
use security_core.Argon2.Types.{ErrorCode, Context}

abbrev pub is_null {ℓ} : {A : Type ℓ} → Option A → Bool
is_null none = true
is_null (some a) = false

-- `if (test) return code;`
abbrev pub reject_if : Bool → ErrorCode → Result ErrorCode (Unit {0})
reject_if test e = guard (not test) e

pub validate_output : Context → Result ErrorCode (Unit {0})
validate_output c = do
  reject_if (is_null c.out) ErrorCode.output_ptr_null
  reject_if (ltb c.outlen Types.min_outlen) ErrorCode.output_too_short
  reject_if (ltb Types.max_outlen c.outlen) ErrorCode.output_too_long

pub validate_pwd : Context → Result ErrorCode (Unit {0})
validate_pwd c = do
  reject_if (is_null c.pwd && not (c.pwdlen == 0)) ErrorCode.pwd_ptr_mismatch
  reject_if (ltb c.pwdlen Types.min_pwd_length) ErrorCode.pwd_too_short
  reject_if (ltb Types.max_pwd_length c.pwdlen) ErrorCode.pwd_too_long

pub validate_salt : Context → Result ErrorCode (Unit {0})
validate_salt c = do
  reject_if (is_null c.salt && not (c.saltlen == 0)) ErrorCode.salt_ptr_mismatch
  reject_if (ltb c.saltlen Types.min_salt_length) ErrorCode.salt_too_short
  reject_if (ltb Types.max_salt_length c.saltlen) ErrorCode.salt_too_long

pub validate_secret : Context → Result ErrorCode (Unit {0})
validate_secret c = do
  reject_if (is_null c.secret && not (c.secretlen == 0)) ErrorCode.secret_ptr_mismatch
  reject_if (not (is_null c.secret) && ltb c.secretlen Types.min_secret) ErrorCode.secret_too_short
  reject_if (not (is_null c.secret) && ltb Types.max_secret c.secretlen) ErrorCode.secret_too_long

pub validate_ad : Context → Result ErrorCode (Unit {0})
validate_ad c = do
  reject_if (is_null c.ad && not (c.adlen == 0)) ErrorCode.ad_ptr_mismatch
  reject_if (not (is_null c.ad) && ltb c.adlen Types.min_ad_length) ErrorCode.ad_too_short
  reject_if (not (is_null c.ad) && ltb Types.max_ad_length c.adlen) ErrorCode.ad_too_long

-- `8 * context->lanes` is computed in 32 bits.
pub validate_memory : Context → Result ErrorCode (Unit {0})
validate_memory c = do
  reject_if (ltb c.m_cost Types.min_memory) ErrorCode.memory_too_little
  reject_if (ltb Types.max_memory c.m_cost) ErrorCode.memory_too_much
  reject_if (ltb c.m_cost (u32 (8 * c.lanes))) ErrorCode.memory_too_little

pub validate_time : Context → Result ErrorCode (Unit {0})
validate_time c = do
  reject_if (ltb c.t_cost Types.min_time) ErrorCode.time_too_small
  reject_if (ltb Types.max_time c.t_cost) ErrorCode.time_too_large

pub validate_lanes : Context → Result ErrorCode (Unit {0})
validate_lanes c = do
  reject_if (ltb c.lanes Types.min_lanes) ErrorCode.lanes_too_few
  reject_if (ltb Types.max_lanes c.lanes) ErrorCode.lanes_too_many

pub validate_threads : Context → Result ErrorCode (Unit {0})
validate_threads c = do
  reject_if (ltb c.threads Types.min_threads) ErrorCode.threads_too_few
  reject_if (ltb Types.max_threads c.threads) ErrorCode.threads_too_many

pub validate_callbacks : Context → Result ErrorCode (Unit {0})
validate_callbacks c = do
  reject_if (c.allocate_cbk && not c.free_cbk) ErrorCode.free_memory_cbk_null
  reject_if (not c.allocate_cbk && c.free_cbk) ErrorCode.allocate_memory_cbk_null

-- A NULL context is `none`.
pub validate_inputs : Option Context → Result ErrorCode (Unit {0})
validate_inputs none = err ErrorCode.incorrect_parameter
validate_inputs (some c) = do
  validate_output c
  validate_pwd c
  validate_salt c
  validate_secret c
  validate_ad c
  validate_memory c
  validate_time c
  validate_lanes c
  validate_threads c
  validate_callbacks c
