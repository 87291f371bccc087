-- ===== src/Argon2/Blake2b/Hash.antt =====
-- `blake2b` and `blake2b_long` of blake2b.c. The clearing of the local state has no effect that
-- a caller could see.
pub mod Whole
pub mod Size
pub mod Long
pub mod Output
use security_core.Common.{
  ℕ, zero, suc, ◌+◌, ◌-◌, ◌*◌, ◌/◌, Bool, true, false, ◌||◌, ◌&&◌, not, Option, none, some, List,
  [], ◌∷◌, ◌++◌, Bytes, length, take, drop, replicate, ltb, leb, ◌==◌, if◌then◌else◌, u32,
}
use security_core.Argon2.Types
use security_core.Argon2.Blake2b.Word.{store32}
use security_core.Argon2.Blake2b.Compress.{State, out_bytes, key_bytes}
use security_core.Argon2.Blake2b.Stream.{
  cleared, blake2b_init, blake2b_init_key, blake2b_update, blake2b_final,
}

-- `if (f(...) < 0) goto fail;`
abbrev pub then_or_fail {ℓ} : {A : Type ℓ} → State × Bool → (State → Option A) → Option A
then_or_fail (s, true) k = k s
then_or_fail (s, false) k = none

abbrev pub is_null : Option Bytes → Bool
is_null none = true
is_null (some b) = false

-- `none` is -1. The uninitialised local state is taken as cleared; the initialisation overwrites
-- it.
unfoldable pub blake2b : ℕ → Option Bytes → ℕ → Option Bytes → ℕ → Option Bytes
blake2b outlen input inlen key keylen =
    if is_null input && ltb 0 inlen
    then none
    else if (outlen == 0) || ltb out_bytes outlen
    then none
    else if (is_null key && ltb 0 keylen) || ltb key_bytes keylen
    then none
    else then_or_fail
        (if ltb 0 keylen
          then blake2b_init_key cleared outlen key keylen
          else blake2b_init cleared outlen)
        (λ s. then_or_fail (blake2b_update s input inlen) (λ s'. (blake2b_final s' outlen).1))

-- init, the length, the input, final: the part that both branches of `blake2b_long` begin with.
unfoldable pub hash_with_length : ℕ → ℕ → Option Bytes → ℕ → Option Bytes
hash_with_length digest outlen input inlen = then_or_fail (blake2b_init cleared digest) λ s1.
    then_or_fail (blake2b_update s1 (some (store32 (u32 outlen))) 4)
      λ s2. then_or_fail (blake2b_update s2 input inlen) λ s3. (blake2b_final s3 digest).1

abbrev pub prepend : Bytes → Option Bytes → Option Bytes
prepend front none = none
prepend front (some rest) = some (front ++ rest)

-- `while (toproduce > BLAKE2B_OUTBYTES)` and what follows it. Each round produces 32 bytes, so
-- that `toproduce` rounds are enough fuel.
pub long_loop : ℕ → ℕ → Bytes → Option Bytes
long_loop zero toproduce buffer = none
long_loop (suc fuel) toproduce buffer =
    if ltb out_bytes toproduce
    then (elim (blake2b out_bytes (some buffer) out_bytes none 0) [
      | none ↦ none
      | some next ↦
          prepend (take (out_bytes / 2) next) (long_loop fuel (toproduce - out_bytes / 2) next)
    ])
    else blake2b toproduce (some buffer) out_bytes none 0

pub blake2b_long : ℕ → Option Bytes → ℕ → Option Bytes
blake2b_long outlen input inlen =
    if ltb Types.uint32_max outlen
    then none
    else if leb outlen out_bytes
    then hash_with_length outlen outlen input inlen
    else (elim (hash_with_length out_bytes outlen input inlen) [
      | none ↦ none
      | some first ↦
          prepend (take (out_bytes / 2) first) (long_loop outlen (u32 outlen - out_bytes / 2) first)
    ])
