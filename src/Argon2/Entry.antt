-- ===== src/Argon2/Entry.antt =====
-- The entry points of Sources/CArgon2/argon2.c. A call gives its code and what it leaves in the context
-- or in the buffers of the caller. A buffer that the code allocates and frees is a value; what the
-- platform finds in it at first is a parameter.
pub mod Tag
pub mod Verify
pub mod Stored
pub mod Again
pub mod RoundTrip
pub mod Reached
pub mod Refused
pub mod Total
pub mod Sample
mod Tests
use security_core.Common.{
  ℕ, ◌+◌, Bool, true, false, not, ◌&&◌, Option, none, some, [], ◌∷◌, ◌++◌, Bytes, length, take,
  replicate, ltb, ◌==◌, if◌then◌else◌, u32, Result, ok, err, ◌>>=◌, ◌>>◌, guard,
}
use security_core.Argon2.Types
use security_core.Argon2.Types.{
  ErrorCode, Context, Argon2Type, argon2_d, argon2_i, argon2_id, pwd_too_long, salt_too_long,
  output_too_long, output_too_short, memory_allocation_error, encoding_fail, decoding_fail,
  verify_mismatch,
}
use security_core.Argon2.Validate.{validate_inputs, is_null}
use security_core.Argon2.Compare.{argon2_compare}
use security_core.Argon2.Encoding.{bytes_at, write_front, encode_string, decode_string}
use security_core.Argon2.Index.{Instance, make_instance}
use security_core.Argon2.Memory.Segment.{Memory}
use security_core.Argon2.Memory.Platform.{
  Platform, hash_out, decoded_salt, decoded_out, verified_out,
}
use security_core.Argon2.Memory.Threads.{fill_memory_blocks}
use security_core.Argon2.Memory.Start.{initialize}
use security_core.Argon2.Memory.Finalize.{finalize}

abbrev pub Outcome : Type 0
Outcome = Result ErrorCode (Unit {0})

-- `blake2b_long` writes the tag to `out`; a failure, which the code does not look at, writes nothing.
abbrev pub write_tag : Option Bytes → Context → Context
write_tag none c = c
write_tag (some tag) c = record c { out = write_front tag c.out }

-- Step 5.
abbrev pub finish_ctx : Instance → Context → Result ErrorCode Memory → Outcome × Context
finish_ctx i c (err e) = (err e, c)
finish_ctx i c (ok memory) = (ok tt, write_tag (finalize i c.outlen memory) c)

-- Steps 4 and 5.
abbrev pub fill_ctx : Platform → Instance → Result ErrorCode Memory × Context → Outcome × Context
fill_ctx p i (err e, c) = (err e, c)
fill_ctx p i (ok memory, c) = finish_ctx i c (fill_memory_blocks p i memory)

-- Steps 2 to 5, after the validation.
abbrev pub run_ctx : Platform → Context → Argon2Type → Outcome → Outcome × Context
run_ctx p c type (err e) = (err e, c)
run_ctx p c type (ok done) = let i = make_instance c type in fill_ctx p i (initialize p i c)

-- The context is not NULL, which `validate_inputs` refuses. The model has the three types only.
unfoldable pub argon2_ctx : Platform → Context → Argon2Type → Outcome × Context
unfolding fill_memory_blocks
argon2_ctx p c type = run_ctx p c type (validate_inputs (some c))

abbrev pub argon2d_ctx : Platform → Context → Outcome × Context
argon2d_ctx p c = argon2_ctx p c argon2_d

abbrev pub argon2i_ctx : Platform → Context → Outcome × Context
argon2i_ctx p c = argon2_ctx p c argon2_i

abbrev pub argon2id_ctx : Platform → Context → Outcome × Context
argon2id_ctx p c = argon2_ctx p c argon2_id

-- The comparison of `outlen` bytes after the call.
abbrev pub compare_ctx : Bytes → Outcome × Context → Outcome × Context
compare_ctx hash (err e, c) = (err e, c)
compare_ctx hash (ok done, c) =
    if argon2_compare (take c.outlen hash) (bytes_at c.out c.outlen) == 0
    then (ok tt, c)
    else (err verify_mismatch, c)

unfoldable pub argon2_verify_ctx : Platform → Context → Bytes → Argon2Type → Outcome × Context
unfolding argon2_ctx
argon2_verify_ctx p c hash type = compare_ctx hash (argon2_ctx p c type)

abbrev pub argon2d_verify_ctx : Platform → Context → Bytes → Outcome × Context
argon2d_verify_ctx p c hash = argon2_verify_ctx p c hash argon2_d

abbrev pub argon2i_verify_ctx : Platform → Context → Bytes → Outcome × Context
argon2i_verify_ctx p c hash = argon2_verify_ctx p c hash argon2_i

abbrev pub argon2id_verify_ctx : Platform → Context → Bytes → Outcome × Context
argon2id_verify_ctx p c hash = argon2_verify_ctx p c hash argon2_id

-- The arguments of `argon2_hash` but for the buffers that it writes; a `void *` is its bytes.
pub record HashRequest : Type 0 where
  pub t_cost : ℕ
  pub m_cost : ℕ
  pub parallelism : ℕ
  pub pwd : Option Bytes
  pub pwdlen : ℕ
  pub salt : Option Bytes
  pub saltlen : ℕ
  pub hashlen : ℕ
  pub type : Argon2Type
  pub version : ℕ

-- The code, and the buffers `hash` and `encoded` after the call.
pub record Hashed : Type 0 where
  pub code : Outcome
  pub hash : Option Bytes
  pub encoded : Option Bytes

-- The context that `argon2_hash` fills in.
unfoldable pub hash_context : Platform → HashRequest → Context
hash_context p q = record {
  out = some (p.garbage hash_out q.hashlen);
  outlen = u32 q.hashlen;
  pwd = q.pwd;
  pwdlen = u32 q.pwdlen;
  salt = q.salt;
  saltlen = u32 q.saltlen;
  secret = none;
  secretlen = 0;
  ad = none;
  adlen = 0;
  t_cost = q.t_cost;
  m_cost = q.m_cost;
  lanes = q.parallelism;
  threads = q.parallelism;
  version = q.version;
  allocate_cbk = false;
  free_cbk = false;
  flags = 0;
}

-- The guards, and the first `malloc`.
unfoldable pub hash_guards : Platform → HashRequest → Outcome
hash_guards p q = do
  guard (not (ltb Types.max_pwd_length q.pwdlen)) pwd_too_long
  guard (not (ltb Types.max_salt_length q.saltlen)) salt_too_long
  guard (not (ltb Types.max_outlen q.hashlen)) output_too_long
  guard (not (ltb q.hashlen Types.min_outlen)) output_too_short
  guard (p.malloc hash_out q.hashlen) memory_allocation_error

-- "if encoding requested, write it": after a failure the buffer is cleared.
abbrev pub write_encoded : ℕ → Option Bytes → Option Bytes → Result ErrorCode Bytes → Hashed
write_encoded encodedlen hash encoded (err e) = record {
  code = err encoding_fail;
  hash = hash;
  encoded = write_front (replicate encodedlen 0) encoded;
}
write_encoded encodedlen hash encoded (ok text) = record {
  code = ok tt;
  hash = hash;
  encoded = write_front (text ++ (0 ∷ [])) encoded;
}

-- After the call of `argon2_ctx`.
abbrev pub write_hash : HashRequest → Option Bytes → Option Bytes → ℕ → Outcome × Context → Hashed
write_hash q hash encoded encodedlen (err e, c) = record {
  code = err e;
  hash = hash;
  encoded = encoded;
}
write_hash q hash encoded encodedlen (ok done, c) =
    let hash' = write_front (bytes_at c.out q.hashlen) hash in
    if not (is_null encoded) && not (encodedlen == 0)
    then write_encoded encodedlen hash' encoded (encode_string encodedlen c q.type)
    else record { code = ok tt; hash = hash'; encoded = encoded }

-- After the guards.
abbrev pub run_hash : Platform → HashRequest → Option Bytes → Option Bytes → ℕ → Outcome → Hashed
run_hash p q hash encoded encodedlen (err e) = record {
  code = err e;
  hash = hash;
  encoded = encoded;
}
run_hash p q hash encoded encodedlen (ok done) =
    write_hash q hash encoded encodedlen (argon2_ctx p (hash_context p q) q.type)

unfoldable pub argon2_hash : Platform → HashRequest → Option Bytes → Option Bytes → ℕ → Hashed
unfolding hash_guards hash_context argon2_ctx
argon2_hash p q hash encoded encodedlen = run_hash p q hash encoded encodedlen (hash_guards p q)

abbrev pub argon2i_hash_encoded : Platform → HashRequest → Option Bytes → ℕ → Hashed
argon2i_hash_encoded p q encoded encodedlen =
    argon2_hash p (record q { type = argon2_i; version = Types.version_number }) none encoded
      encodedlen

abbrev pub argon2i_hash_raw : Platform → HashRequest → Option Bytes → Hashed
argon2i_hash_raw p q hash =
    argon2_hash p (record q { type = argon2_i; version = Types.version_number }) hash none 0

abbrev pub argon2d_hash_encoded : Platform → HashRequest → Option Bytes → ℕ → Hashed
argon2d_hash_encoded p q encoded encodedlen =
    argon2_hash p (record q { type = argon2_d; version = Types.version_number }) none encoded
      encodedlen

abbrev pub argon2d_hash_raw : Platform → HashRequest → Option Bytes → Hashed
argon2d_hash_raw p q hash =
    argon2_hash p (record q { type = argon2_d; version = Types.version_number }) hash none 0

abbrev pub argon2id_hash_encoded : Platform → HashRequest → Option Bytes → ℕ → Hashed
argon2id_hash_encoded p q encoded encodedlen =
    argon2_hash p (record q { type = argon2_id; version = Types.version_number }) none encoded
      encodedlen

abbrev pub argon2id_hash_raw : Platform → HashRequest → Option Bytes → Hashed
argon2id_hash_raw p q hash =
    argon2_hash p (record q { type = argon2_id; version = Types.version_number }) hash none 0

-- The context before `decode_string`: the two buffers are as long as the string, and the fields that
-- are not set hold what the stack holds.
unfoldable pub verify_context : Platform → Bytes → Option Bytes → ℕ → Context
verify_context p encoded pwd pwdlen =
    let max_field_len = u32 (length encoded) in
    record p.garbage_context {
      saltlen = max_field_len;
      outlen = max_field_len;
      salt = some (p.garbage decoded_salt max_field_len);
      out = some (p.garbage decoded_out max_field_len);
      pwd = pwd;
      pwdlen = u32 pwdlen;
    }

-- "Set aside the desired result, and get a new buffer."
unfoldable pub verify_decoded : Platform → Argon2Type → Context → Outcome
unfolding argon2_verify_ctx
verify_decoded p type c = do
  guard (p.malloc verified_out c.outlen) memory_allocation_error
  (argon2_verify_ctx p (record c { out = some (p.garbage verified_out c.outlen) })
      (bytes_at c.out c.outlen) type).0

abbrev pub verify_string : Platform → Option Bytes → Option Bytes → ℕ → Argon2Type → Outcome
verify_string p none pwd pwdlen type = err decoding_fail
verify_string p (some encoded) pwd pwdlen type = do
  guard (not (ltb Types.uint32_max (length encoded))) decoding_fail
  let max_field_len = u32 (length encoded)
  guard (p.malloc decoded_salt max_field_len && p.malloc decoded_out max_field_len)
      memory_allocation_error
  c ← decode_string (verify_context p encoded pwd pwdlen) encoded type
  verify_decoded p type c

-- The string is its characters before the zero byte.
unfoldable pub argon2_verify : Platform → Option Bytes → Option Bytes → ℕ → Argon2Type → Outcome
unfolding verify_context verify_decoded
argon2_verify p encoded pwd pwdlen type = do
  guard (not (ltb Types.max_pwd_length pwdlen)) pwd_too_long
  verify_string p encoded pwd pwdlen type

abbrev pub argon2i_verify : Platform → Option Bytes → Option Bytes → ℕ → Outcome
argon2i_verify p encoded pwd pwdlen = argon2_verify p encoded pwd pwdlen argon2_i

abbrev pub argon2d_verify : Platform → Option Bytes → Option Bytes → ℕ → Outcome
argon2d_verify p encoded pwd pwdlen = argon2_verify p encoded pwd pwdlen argon2_d

abbrev pub argon2id_verify : Platform → Option Bytes → Option Bytes → ℕ → Outcome
argon2id_verify p encoded pwd pwdlen = argon2_verify p encoded pwd pwdlen argon2_id
