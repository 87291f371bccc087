-- ===== src/Argon2/Types.antt =====
-- Sources/CArgon2/include/argon2.h: the error codes, the type of the function, the versions, the
-- restrictions on the inputs and the context; and `argon2_type2string` and `argon2_error_message`
-- of Sources/CArgon2/argon2.c.
-- An error code is a constructor; a function that returns a code is a `Result`, where `ok` stands
-- for ARGON2_OK. A pointer is an `Option`: `none` is NULL, and `some` the bytes that it points to.
use security_core.Common.{ℕ, ◌^◌, ◌-◌, ◌*◌, Bool, true, false, Option, Bytes, codes}

pub data ErrorCode : Type 0 where
  argon2_ok output_ptr_null output_too_short output_too_long pwd_too_short pwd_too_long : ErrorCode
  salt_too_short salt_too_long ad_too_short ad_too_long secret_too_short : ErrorCode
  secret_too_long time_too_small time_too_large memory_too_little memory_too_much : ErrorCode
  lanes_too_few lanes_too_many pwd_ptr_mismatch salt_ptr_mismatch secret_ptr_mismatch : ErrorCode
  ad_ptr_mismatch memory_allocation_error free_memory_cbk_null allocate_memory_cbk_null : ErrorCode
  incorrect_parameter incorrect_type out_ptr_mismatch threads_too_few threads_too_many : ErrorCode
  missing_args encoding_fail decoding_fail thread_fail decoding_length_fail : ErrorCode
  verify_mismatch : ErrorCode

-- The value of a code in C is the negation of this number.
unfoldable pub code_value : ErrorCode → ℕ
code_value argon2_ok = 0
code_value output_ptr_null = 1
code_value output_too_short = 2
code_value output_too_long = 3
code_value pwd_too_short = 4
code_value pwd_too_long = 5
code_value salt_too_short = 6
code_value salt_too_long = 7
code_value ad_too_short = 8
code_value ad_too_long = 9
code_value secret_too_short = 10
code_value secret_too_long = 11
code_value time_too_small = 12
code_value time_too_large = 13
code_value memory_too_little = 14
code_value memory_too_much = 15
code_value lanes_too_few = 16
code_value lanes_too_many = 17
code_value pwd_ptr_mismatch = 18
code_value salt_ptr_mismatch = 19
code_value secret_ptr_mismatch = 20
code_value ad_ptr_mismatch = 21
code_value memory_allocation_error = 22
code_value free_memory_cbk_null = 23
code_value allocate_memory_cbk_null = 24
code_value incorrect_parameter = 25
code_value incorrect_type = 26
code_value out_ptr_mismatch = 27
code_value threads_too_few = 28
code_value threads_too_many = 29
code_value missing_args = 30
code_value encoding_fail = 31
code_value decoding_fail = 32
code_value thread_fail = 33
code_value decoding_length_fail = 34
code_value verify_mismatch = 35

unfoldable pub argon2_error_message : ErrorCode → Bytes
argon2_error_message argon2_ok = codes "OK"
argon2_error_message output_ptr_null = codes "Output pointer is NULL"
argon2_error_message output_too_short = codes "Output is too short"
argon2_error_message output_too_long = codes "Output is too long"
argon2_error_message pwd_too_short = codes "Password is too short"
argon2_error_message pwd_too_long = codes "Password is too long"
argon2_error_message salt_too_short = codes "Salt is too short"
argon2_error_message salt_too_long = codes "Salt is too long"
argon2_error_message ad_too_short = codes "Associated data is too short"
argon2_error_message ad_too_long = codes "Associated data is too long"
argon2_error_message secret_too_short = codes "Secret is too short"
argon2_error_message secret_too_long = codes "Secret is too long"
argon2_error_message time_too_small = codes "Time cost is too small"
argon2_error_message time_too_large = codes "Time cost is too large"
argon2_error_message memory_too_little = codes "Memory cost is too small"
argon2_error_message memory_too_much = codes "Memory cost is too large"
argon2_error_message lanes_too_few = codes "Too few lanes"
argon2_error_message lanes_too_many = codes "Too many lanes"
argon2_error_message pwd_ptr_mismatch =
    codes "Password pointer is NULL, but password length is not 0"
argon2_error_message salt_ptr_mismatch = codes "Salt pointer is NULL, but salt length is not 0"
argon2_error_message secret_ptr_mismatch =
    codes "Secret pointer is NULL, but secret length is not 0"
argon2_error_message ad_ptr_mismatch =
    codes "Associated data pointer is NULL, but ad length is not 0"
argon2_error_message memory_allocation_error = codes "Memory allocation error"
argon2_error_message free_memory_cbk_null = codes "The free memory callback is NULL"
argon2_error_message allocate_memory_cbk_null = codes "The allocate memory callback is NULL"
argon2_error_message incorrect_parameter = codes "Argon2_Context context is NULL"
argon2_error_message incorrect_type = codes "There is no such version of Argon2"
argon2_error_message out_ptr_mismatch = codes "Output pointer mismatch"
argon2_error_message threads_too_few = codes "Not enough threads"
argon2_error_message threads_too_many = codes "Too many threads"
argon2_error_message missing_args = codes "Missing arguments"
argon2_error_message encoding_fail = codes "Encoding failed"
argon2_error_message decoding_fail = codes "Decoding failed"
argon2_error_message thread_fail = codes "Threading failure"
argon2_error_message decoding_length_fail =
    codes "Some of encoded parameters are too long or too short"
argon2_error_message verify_mismatch = codes "The password does not match the supplied hash"

pub data Argon2Type : Type 0 where
  argon2_d argon2_i argon2_id : Argon2Type

-- The value of the enumeration constant.
unfoldable pub type_value : Argon2Type → ℕ
type_value argon2_d = 0
type_value argon2_i = 1
type_value argon2_id = 2

-- The model has the three types only, so the result is never NULL.
unfoldable pub argon2_type2string : Argon2Type → Bool → Bytes
argon2_type2string argon2_d true = codes "Argon2d"
argon2_type2string argon2_d false = codes "argon2d"
argon2_type2string argon2_i true = codes "Argon2i"
argon2_type2string argon2_i false = codes "argon2i"
argon2_type2string argon2_id true = codes "Argon2id"
argon2_type2string argon2_id false = codes "argon2id"

abbrev pub version_10 : ℕ
version_10 = 0x10

abbrev pub version_13 : ℕ
version_13 = 0x13

abbrev pub version_number : ℕ
version_number = version_13

abbrev pub uint32_max : ℕ
uint32_max = 2 ^ 32 - 1

abbrev pub min_lanes : ℕ
min_lanes = 1

abbrev pub max_lanes : ℕ
max_lanes = 0xffffff

abbrev pub min_threads : ℕ
min_threads = 1

abbrev pub max_threads : ℕ
max_threads = 0xffffff

abbrev pub sync_points : ℕ
sync_points = 4

abbrev pub min_outlen : ℕ
min_outlen = 4

abbrev pub max_outlen : ℕ
max_outlen = 0xffff_ffff

abbrev pub min_memory : ℕ
min_memory = 2 * sync_points

-- With 64-bit pointers the smaller of 0xffffffff and 1 << 32.
abbrev pub max_memory : ℕ
max_memory = 0xffff_ffff

abbrev pub min_time : ℕ
min_time = 1

abbrev pub max_time : ℕ
max_time = 0xffff_ffff

abbrev pub min_pwd_length : ℕ
min_pwd_length = 0

abbrev pub max_pwd_length : ℕ
max_pwd_length = 0xffff_ffff

abbrev pub min_ad_length : ℕ
min_ad_length = 0

abbrev pub max_ad_length : ℕ
max_ad_length = 0xffff_ffff

abbrev pub min_salt_length : ℕ
min_salt_length = 8

abbrev pub max_salt_length : ℕ
max_salt_length = 0xffff_ffff

abbrev pub min_secret : ℕ
min_secret = 0

abbrev pub max_secret : ℕ
max_secret = 0xffff_ffff

-- A callback is modelled by whether its pointer is set.
pub record Context : Type 0 where
  pub out : Option Bytes
  pub outlen : ℕ
  pub pwd : Option Bytes
  pub pwdlen : ℕ
  pub salt : Option Bytes
  pub saltlen : ℕ
  pub secret : Option Bytes
  pub secretlen : ℕ
  pub ad : Option Bytes
  pub adlen : ℕ
  pub t_cost : ℕ
  pub m_cost : ℕ
  pub lanes : ℕ
  pub threads : ℕ
  pub version : ℕ
  pub allocate_cbk : Bool
  pub free_cbk : Bool
  pub flags : ℕ
