-- ===== src/Argon2/Memory/Init.antt =====
-- `allocate_memory`, `initial_hash`, `fill_first_blocks` and `finalize` of core.c.
pub mod Trimmed
use security_core.Common.{
  ℕ, ◌≡◌, refl, sym, ap, ◌∙◌, Option, none, some, List, [], ◌∷◌, ◌++◌, Bytes, drop, bit_and, length,
  replicate, ◌==◌, if◌then◌else◌, arith,
}
use security_core.Argon2.Types.{Context, Argon2Type, type_value}
use security_core.Argon2.Blake2b.Word.{store32}
use security_core.Argon2.Blake2b.Compress.{State}
use security_core.Argon2.Blake2b.Stream.{cleared, blake2b_init, blake2b_update, blake2b_final}
use security_core.Argon2.Blake2b.Stream.Chunks.{fed_all, joined}
use security_core.Argon2.Blake2b.Hash.{blake2b}
use security_core.Argon2.Blake2b.Hash.Whole.{final-pieces}

abbrev pub prehash_digest_length : ℕ
prehash_digest_length = 64

abbrev pub flag_clear_password : ℕ
flag_clear_password = 1

abbrev pub flag_clear_secret : ℕ
flag_clear_secret = 2

-- A 32-bit number, and a buffer that may be absent.
abbrev pub put : State → ℕ → State
put s v = (blake2b_update s (some (store32 v)) 4).0

abbrev pub put_buffer : State → Option Bytes → ℕ → State
put_buffer s none n = s
put_buffer s (some x) n = (blake2b_update s (some x) n).0

-- `secure_wipe_memory` of the first `n` bytes.
abbrev pub wiped : Bytes → ℕ → Bytes
wiped x n = replicate n 0 ++ drop n x

-- What is left of the password and of the secret, if the flags ask for their clearing.
unfoldable pub clear_password : Context → Context
clear_password c = elim c.pwd [
  | none ↦ c
  | some x ↦
      if bit_and c.flags flag_clear_password == 0
      then c
      else record c { pwd = some (wiped x c.pwdlen); pwdlen = 0 }
]

unfoldable pub clear_secret : Context → Context
clear_secret c = elim c.secret [
  | none ↦ c
  | some x ↦
      if bit_and c.flags flag_clear_secret == 0
      then c
      else record c { secret = some (wiped x c.secretlen); secretlen = 0 }
]

-- The digest, and the context that is left.
unfoldable pub initial_hash : Context → Argon2Type → Option Bytes × Context
initial_hash c type =
    let s0 = (blake2b_init cleared prehash_digest_length).0 in
    let s1 = put s0 c.lanes in
    let s2 = put s1 c.outlen in
    let s3 = put s2 c.m_cost in
    let s4 = put s3 c.t_cost in
    let s5 = put s4 c.version in
    let s6 = put s5 (type_value type) in
    let s7 = put_buffer (put s6 c.pwdlen) c.pwd c.pwdlen in
    let s8 = put_buffer (put s7 c.saltlen) c.salt c.saltlen in
    let s9 = put_buffer (put s8 c.secretlen) c.secret c.secretlen in
    let s10 = put_buffer (put s9 c.adlen) c.ad c.adlen in
    ((blake2b_final s10 prehash_digest_length).1, clear_secret (clear_password c))

-- The input of the first hash in RFC 9106, in pieces.
abbrev pub with_buffer : Option Bytes → List Bytes → List Bytes
with_buffer none rest = rest
with_buffer (some x) rest = x ∷ rest

abbrev pub prehash_input : Context → Argon2Type → List Bytes
prehash_input c type =
    store32 c.lanes
    ∷ store32 c.outlen
    ∷ store32 c.m_cost
    ∷ store32 c.t_cost
    ∷ store32 c.version
    ∷ store32 (type_value type)
    ∷ store32 c.pwdlen
    ∷ with_buffer c.pwd (
        store32 c.saltlen
        ∷ with_buffer c.salt
            (store32 c.secretlen ∷ with_buffer c.secret (store32 c.adlen ∷ with_buffer c.ad [])))

-- An absent buffer, or one that holds as many bytes as its length says.
abbrev pub IsFull : Option Bytes → ℕ → Type 0
IsFull none n = Unit {0}
IsFull (some x) n = length x ≡ n

fed_all-store32 :
    (s : State) (v : ℕ) (rest : List Bytes) → fed_all s (store32 v ∷ rest) ≡ fed_all (put s v) rest
unfolding store32
fed_all-store32 s v rest = refl

fed_all-with_buffer :
    (s : State) (o : Option Bytes) (n : ℕ) (rest : List Bytes)
    → IsFull o n
    → fed_all s (with_buffer o rest) ≡ fed_all (put_buffer s o n) rest
fed_all-with_buffer s none n rest h = refl
fed_all-with_buffer s (some x) n rest h =
    ap (λ (k : ℕ). fed_all (blake2b_update s (some x) k).0 rest) h

fed_all_field :
    (s : State) (o : Option Bytes) (n : ℕ) (rest : List Bytes)
    → IsFull o n
    → fed_all s (store32 n ∷ with_buffer o rest) ≡ fed_all (put_buffer (put s n) o n) rest
fed_all_field s o n rest h =
    fed_all-store32 s n (with_buffer o rest) ∙ fed_all-with_buffer (put s n) o n rest h

fed_all_numbers :
    (s : State) (a b c d e f : ℕ) (rest : List Bytes)
    → fed_all s (store32 a ∷ store32 b ∷ store32 c ∷ store32 d ∷ store32 e ∷ store32 f ∷ rest)
      ≡ fed_all (put (put (put (put (put (put s a) b) c) d) e) f) rest
unfolding store32
fed_all_numbers s a b c d e f rest = refl

-- For buffers that hold as many bytes as their lengths say, the first hash is the BLAKE2b hash of 64
-- bytes of the input that RFC 9106 defines: the numbers and the lengths in 32 bits, each length
-- before its buffer.
pub initial_hash-blake2b :
    (c : Context) (type : Argon2Type)
    → IsFull c.pwd c.pwdlen
    → IsFull c.salt c.saltlen
    → IsFull c.secret c.secretlen
    → IsFull c.ad c.adlen
    → let input = joined (prehash_input c type) in
      (initial_hash c type).0 ≡ blake2b 64 (some input) (length input) none 0
unfolding initial_hash
initial_hash-blake2b c type p s k a =
    let s0 = (blake2b_init cleared 64).0 in
    let s6 =
      put (put (put (put (put (put s0 c.lanes) c.outlen) c.m_cost) c.t_cost) c.version)
        (type_value type) in
    let s7 = put_buffer (put s6 c.pwdlen) c.pwd c.pwdlen in
    let s8 = put_buffer (put s7 c.saltlen) c.salt c.saltlen in
    let s9 = put_buffer (put s8 c.secretlen) c.secret c.secretlen in
    let s10 = put_buffer (put s9 c.adlen) c.ad c.adlen in
    let ads = store32 c.adlen ∷ with_buffer c.ad [] in
    let secrets = store32 c.secretlen ∷ with_buffer c.secret ads in
    let salts = store32 c.saltlen ∷ with_buffer c.salt secrets in
    let first : fed_all s0 (prehash_input c type)
        ≡ fed_all s6 (store32 c.pwdlen ∷ with_buffer c.pwd salts) =
      fed_all_numbers s0 c.lanes c.outlen c.m_cost c.t_cost c.version (type_value type)
        (store32 c.pwdlen ∷ with_buffer c.pwd salts) in
    let all : fed_all s0 (prehash_input c type) ≡ s10 =
      first
      ∙ fed_all_field s6 c.pwd c.pwdlen salts p
      ∙ fed_all_field s7 c.salt c.saltlen secrets s
      ∙ fed_all_field s8 c.secret c.secretlen ads k
      ∙ fed_all_field s9 c.ad c.adlen [] a in
    ap (λ (t : State). (blake2b_final t 64).1) (sym all)
    ∙ final-pieces 64 (prehash_input c type) (omega arith) (omega arith)
