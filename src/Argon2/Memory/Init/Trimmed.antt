-- ===== src/Argon2/Memory/Init/Trimmed.antt =====
-- `initial_hash` reads of each buffer as many bytes as its length says.
use security_core.Common.{
  ℕ, ◌≡◌, refl, sym, ap, subst, ◌∙◌, Bool, true, false, Option, none, some, Bytes, take, length,
  length-take, take-all, ◌==◌, if◌then◌else◌, arith,
}
use security_core.Argon2.Validate.{is_null}
use security_core.Argon2.Types.{Context, Argon2Type, type_value}
use security_core.Argon2.Blake2b.Compress.{State}
use security_core.Argon2.Blake2b.Stream.{
  cleared, blake2b_init, update_bytes, blake2b_update, blake2b_final,
}
use security_core.Argon2.Blake2b.Stream.Chunks.{joined}
use security_core.Argon2.Blake2b.Hash.{blake2b}
use security_core.Argon2.Blake2b.Hash.Size.{Answers, blake2b-Answers}
use security_core.Argon2.Encoding.{bytes_at}
use security_core.Argon2.Memory.Init.{
  put, put_buffer, initial_hash, prehash_input, IsFull, initial_hash-blake2b,
}

-- A buffer cut to its length.
abbrev pub trimmed : Option Bytes → ℕ → Option Bytes
trimmed none n = none
trimmed (some x) n = some (take n x)

-- The pointer points to that many bytes at least.
abbrev pub IsHeld : Option Bytes → ℕ → Type 0
IsHeld o n = length (bytes_at o n) ≡ n

trimmed-IsFull : (o : Option Bytes) (n : ℕ) → IsHeld o n → IsFull (trimmed o n) n
trimmed-IsFull none n h = tt
trimmed-IsFull (some x) n h = h

take-take : (n : ℕ) (x : Bytes) → take n (take n x) ≡ take n x
take-take n x = take-all n (take n x) (omega (arith, length-take n x))

put_buffer-trimmed :
    (s : State) (o : Option Bytes) (n : ℕ) → put_buffer s (trimmed o n) n ≡ put_buffer s o n
unfolding blake2b_update
put_buffer-trimmed s none n = refl
put_buffer-trimmed s (some x) n =
    let failed : State × Bool = (s, false) in
    let done : State × Bool = (s, true) in
    ap
      (λ (y : Bytes).
        (if n == 0 then done else if s.f0 == 0 then (update_bytes s y, true) else failed).0)
      (take-take n x)

abbrev pub trimmed_context : Context → Context
trimmed_context c = record c {
  pwd = trimmed c.pwd c.pwdlen;
  salt = trimmed c.salt c.saltlen;
  secret = trimmed c.secret c.secretlen;
  ad = trimmed c.ad c.adlen;
}

pub initial_hash-trimmed :
    (c : Context) (type : Argon2Type)
    → (initial_hash (trimmed_context c) type).0 ≡ (initial_hash c type).0
unfolding initial_hash
initial_hash-trimmed c type =
    let s0 = (blake2b_init cleared 64).0 in
    let s6 =
      put (put (put (put (put (put s0 c.lanes) c.outlen) c.m_cost) c.t_cost) c.version)
        (type_value type) in
    let field : Option Bytes → ℕ → State → State = λ o n s. put_buffer (put s n) o n in
    let cut : (o : Option Bytes) (n : ℕ) (s t : State)
        → s ≡ t
        → field (trimmed o n) n s ≡ field o n t =
      λ o n s t e. put_buffer-trimmed (put s n) o n ∙ ap (field o n) e in
    ap (λ (s : State). (blake2b_final s 64).1)
      (cut c.ad c.adlen _ _
        (cut c.secret c.secretlen _ _ (cut c.salt c.saltlen _ _ (cut c.pwd c.pwdlen s6 s6 refl))))

-- The hash has 64 bytes.
pub initial_hash-Answers :
    (c : Context) (type : Argon2Type)
    → IsHeld c.pwd c.pwdlen
    → IsHeld c.salt c.saltlen
    → IsHeld c.secret c.secretlen
    → IsHeld c.ad c.adlen
    → Answers 64 (initial_hash c type).0
initial_hash-Answers c type p s k a =
    let t = trimmed_context c in
    let input = joined (prehash_input t type) in
    let hash : (initial_hash c type).0 ≡ blake2b 64 (some input) (length input) none 0 =
      sym (initial_hash-trimmed c type)
      ∙ initial_hash-blake2b t type (trimmed-IsFull c.pwd c.pwdlen p)
          (trimmed-IsFull c.salt c.saltlen s) (trimmed-IsFull c.secret c.secretlen k)
          (trimmed-IsFull c.ad c.adlen a) in
    subst (Answers 64) (sym hash) (blake2b-Answers 64 input (omega arith) (omega arith))

-- A buffer that is there.
pub trimmed_lem : (o : Option Bytes) (n : ℕ) → is_null o ≡ false → trimmed o n ≡ some (bytes_at o n)
trimmed_lem none n h = cc
trimmed_lem (some x) n h = refl
