-- ===== src/Argon2/Blake2b/Hash/Output.antt =====
-- What `blake2b_final`, `blake2b` and `blake2b_long` write are bytes.
use security_core.Common.{
  ℕ, zero, suc, ◌-◌, ◌/◌, ◌%◌, ◌^◌, ◌<◌, ◌≡◌, subst, inl, inr, Bool, true, false, ◌&&◌, ◌||◌, not,
  Option, none, some, List, [], ◌∷◌, Bytes, AreBytes, All-append, All-take, take, ltb, leb, ◌==◌,
  Bool-cases, if◌then◌else◌, u32, arith,
}
use security_core.Argon2.Types
use security_core.Argon2.Blake2b.Word.{store32, store64}
use security_core.Argon2.Blake2b.Compress.{State, out_bytes, key_bytes}
use security_core.Argon2.Blake2b.Stream.{
  cleared, store_words, last_block, blake2b_init, blake2b_init_key, blake2b_update, blake2b_final,
}
use security_core.Argon2.Blake2b.Hash.{
  blake2b, is_null, hash_with_length, long_loop, blake2b_long, then_or_fail, prepend,
}

-- No output, or one of bytes.
data GivesBytes : Option Bytes → Type 0 where
  silent : GivesBytes none
  gives : {x : Bytes} → AreBytes x → GivesBytes (some x)

given : {x : Bytes} → GivesBytes (some x) → AreBytes x
given (gives h) = h

byte : (w : ℕ) → w % 256 < 256
byte w = omega arith

store_words-AreBytes : (ws : List ℕ) → AreBytes (store_words ws)
unfolding store_words store64
store_words-AreBytes [] = tt
store_words-AreBytes (w ∷ ws) =
    All-append (λ b. b < 256) (store64 w) (store_words ws)
      (
        byte w,
        (
          byte (w / 2 ^ 8),
          (
            byte (w / 2 ^ 16),
            (
              byte (w / 2 ^ 24),
              (
                byte (w / 2 ^ 32),
                (byte (w / 2 ^ 40), (byte (w / 2 ^ 48), (byte (w / 2 ^ 56), tt))),
              ),
            ),
          ),
        ),
      )
      (store_words-AreBytes ws)

final-GivesBytes : (s : State) (n : ℕ) → GivesBytes (blake2b_final s n).1
unfolding blake2b_final
final-GivesBytes s n = elim (Bool-cases (ltb n s.outlen || not (s.f0 == 0))) [
  | inl e ↦ rw e silent
  | inr e ↦ rw e (
      gives (
        All-take (λ b. b < 256) (last_block s).outlen (store_words (last_block s).h)
          (store_words-AreBytes (last_block s).h)))
]

then_or_fail-GivesBytes :
    (t : State × Bool) (k : State → Option Bytes)
    → ((s : State) → GivesBytes (k s))
    → GivesBytes (then_or_fail t k)
then_or_fail-GivesBytes (s, true) k h = h s
then_or_fail-GivesBytes (s, false) k h = silent

if_GivesBytes :
    (b : Bool) (x y : Option Bytes) → GivesBytes x → GivesBytes y → GivesBytes (if b then x else y)
if_GivesBytes true x y hx hy = hx
if_GivesBytes false x y hx hy = hy

blake2b-GivesBytes :
    (outlen : ℕ) (input : Option Bytes) (inlen : ℕ) (key : Option Bytes) (keylen : ℕ)
    → GivesBytes (blake2b outlen input inlen key keylen)
unfolding blake2b
blake2b-GivesBytes outlen input inlen key keylen =
    if_GivesBytes (is_null input && ltb 0 inlen) _ _ silent (
      if_GivesBytes ((outlen == 0) || ltb out_bytes outlen) _ _ silent (
        if_GivesBytes ((is_null key && ltb 0 keylen) || ltb key_bytes keylen) _ _ silent (
          then_or_fail-GivesBytes
            (if ltb 0 keylen
              then blake2b_init_key cleared outlen key keylen
              else blake2b_init cleared outlen)
            _
            (λ s.
              then_or_fail-GivesBytes (blake2b_update s input inlen) _
                (λ s'. final-GivesBytes s' outlen)))))

hash_with_length-GivesBytes :
    (digest outlen : ℕ) (input : Option Bytes) (inlen : ℕ)
    → GivesBytes (hash_with_length digest outlen input inlen)
unfolding hash_with_length
hash_with_length-GivesBytes digest outlen input inlen =
    then_or_fail-GivesBytes (blake2b_init cleared digest) _ (λ s1.
      then_or_fail-GivesBytes (blake2b_update s1 (some (store32 (u32 outlen))) 4) _ (λ s2.
        then_or_fail-GivesBytes (blake2b_update s2 input inlen) _
          (λ s3. final-GivesBytes s3 digest)))

prepend-GivesBytes :
    (front : Bytes) (rest : Option Bytes)
    → AreBytes front
    → GivesBytes rest
    → GivesBytes (prepend front rest)
prepend-GivesBytes front none hf hr = silent
prepend-GivesBytes front (some rest) hf (gives hr) =
    gives (All-append (λ b. b < 256) front rest hf hr)

-- The first half of a block before what follows from it.
half-GivesBytes :
    (o : Option Bytes) (next : Bytes → Option Bytes)
    → GivesBytes o
    → ((x : Bytes) → GivesBytes (next x))
    → GivesBytes (elim o [ none ↦ none | some x ↦ prepend (take (out_bytes / 2) x) (next x) ])
half-GivesBytes none next h go = silent
half-GivesBytes (some x) next (gives h) go =
    prepend-GivesBytes (take (out_bytes / 2) x) (next x)
      (All-take (λ b. b < 256) (out_bytes / 2) x h) (go x)

long_loop-GivesBytes : (fuel toproduce : ℕ) (b : Bytes) → GivesBytes (long_loop fuel toproduce b)
unfolding long_loop
long_loop-GivesBytes zero toproduce b = silent
long_loop-GivesBytes (suc fuel) toproduce b =
    if_GivesBytes (ltb out_bytes toproduce) _ _
      (half-GivesBytes (blake2b out_bytes (some b) out_bytes none 0)
        (λ x. long_loop fuel (toproduce - out_bytes / 2) x)
        (blake2b-GivesBytes out_bytes (some b) out_bytes none 0)
        (λ x. long_loop-GivesBytes fuel (toproduce - out_bytes / 2) x))
      (blake2b-GivesBytes toproduce (some b) out_bytes none 0)

blake2b_long-GivesBytes :
    (outlen : ℕ) (input : Option Bytes) (inlen : ℕ) → GivesBytes (blake2b_long outlen input inlen)
unfolding blake2b_long
blake2b_long-GivesBytes outlen input inlen =
    if_GivesBytes (ltb Types.uint32_max outlen) _ _ silent (
      if_GivesBytes (leb outlen out_bytes) _ _
        (hash_with_length-GivesBytes outlen outlen input inlen)
        (half-GivesBytes (hash_with_length out_bytes outlen input inlen)
          (λ x. long_loop outlen (u32 outlen - out_bytes / 2) x)
          (hash_with_length-GivesBytes out_bytes outlen input inlen)
          (λ x. long_loop-GivesBytes outlen (u32 outlen - out_bytes / 2) x)))

-- An output consists of bytes.
pub blake2b_long-AreBytes :
    (outlen : ℕ) (input : Option Bytes) (inlen : ℕ) (out : Bytes)
    → blake2b_long outlen input inlen ≡ some out
    → AreBytes out
blake2b_long-AreBytes outlen input inlen out e =
    given (subst GivesBytes e (blake2b_long-GivesBytes outlen input inlen))
