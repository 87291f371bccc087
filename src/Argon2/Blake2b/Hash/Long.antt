-- ===== src/Argon2/Blake2b/Hash/Long.antt =====
-- The loop of `blake2b_long`, and its output on each length.
use security_core.Common.{
  ℕ, zero, suc, ◌+◌, ◌-◌, ◌^◌, ◌≤◌, ◌<◌, ◌≡◌, sym, ap, subst, ◌∙◌, Bool, true, false, Option, none,
  some, ◌++◌, Bytes, length, ltb, leb, arith, u32, inl, inr, take, length-take, length-append,
  lt_or_le, lt→ltb, le→ltb,
}
use security_core.Argon2.Blake2b.Word.{store32}
use security_core.Argon2.Blake2b.Compress.{State, out_bytes}
use security_core.Argon2.Blake2b.Stream.{cleared, blake2b_update, blake2b_final}
use security_core.Argon2.Blake2b.Stream.Chunks.{fed, fed-true}
use security_core.Argon2.Blake2b.Hash.{
  blake2b, hash_with_length, long_loop, blake2b_long, then_or_fail, prepend,
}
use security_core.Argon2.Blake2b.Hash.Whole.{started, init-started, started-IsReady}
use security_core.Argon2.Blake2b.Hash.Size.{
  Answers, started-HasSize, fed-HasSize, fed-IsReady, final-Answers, blake2b-Answers,
}

hash_with_length-fed :
    (n outlen : ℕ) (x : Bytes)
    → 1 ≤ n
    → n ≤ 64
    → hash_with_length n outlen (some x) (length x)
      ≡ (blake2b_final (fed (fed (started n) (store32 (u32 outlen))) x) n).1
unfolding hash_with_length store32
hash_with_length-fed n outlen x low high =
    let front = store32 (u32 outlen) in
    let r = started-IsReady n in
    let close : State × Bool → Option Bytes = λ t. then_or_fail t λ s. (blake2b_final s n).1 in
    let second : State × Bool → Option Bytes =
      λ t. then_or_fail t λ s. close (blake2b_update s (some x) (length x)) in
    let first : State × Bool → Option Bytes =
      λ t. then_or_fail t λ s. second (blake2b_update s (some front) 4) in
    ap first (init-started cleared n low high)
    ∙ ap second (fed-true (started n) front r.not_final)
    ∙ ap close (fed-true (fed (started n) front) x (fed-IsReady (started n) front r).not_final)

hash_with_length-Answers :
    (n outlen : ℕ) (x : Bytes)
    → 1 ≤ n
    → n ≤ 64
    → Answers n (hash_with_length n outlen (some x) (length x))
hash_with_length-Answers n outlen x low high =
    let front = store32 (u32 outlen) in
    let r = started-IsReady n in
    let s = fed (started n) front in
    let ready = fed-IsReady (started n) front r in
    subst (Answers n) (sym (hash_with_length-fed n outlen x low high)) (
      final-Answers n (fed s x) high (fed-IsReady s x ready)
        (fed-HasSize n s x ready (fed-HasSize n (started n) front r (started-HasSize n high))))

-- The hash of a full buffer.
buffer-Answers :
    (n : ℕ) (b : Bytes)
    → 1 ≤ n
    → n ≤ 64
    → length b ≡ 64
    → Answers n (blake2b n (some b) out_bytes none 0)
buffer-Answers n b low high h =
    subst (λ k. Answers n (blake2b n (some b) k none 0)) h (blake2b-Answers n b low high)

prepend-Answers :
    (n m k : ℕ) (front : Bytes) (rest : Option Bytes)
    → length front ≡ n
    → k ≡ n + m
    → Answers m rest
    → Answers k (prepend front rest)
unfolding Answers
prepend-Answers n m k front rest h e (out, eq, l) =
    (front ++ out, ap (prepend front) eq, omega (arith, length-append front out))

long_loop-more :
    (f t : ℕ) (b next : Bytes)
    → 64 < t
    → blake2b 64 (some b) out_bytes none 0 ≡ some next
    → long_loop (suc f) t b ≡ prepend (take 32 next) (long_loop f (t - 32) next)
unfolding long_loop
long_loop-more f t b next h e = rw (lt→ltb 64 t h, e)

long_loop-done :
    (f t : ℕ) (b : Bytes) → t ≤ 64 → long_loop (suc f) t b ≡ blake2b t (some b) out_bytes none 0
unfolding long_loop
long_loop-done f t b h = rw (le→ltb 64 t h)

-- As many rounds as bytes to produce are enough.
long_loop-Answers :
    (f t : ℕ) (b : Bytes) → length b ≡ 64 → 1 ≤ t → t ≤ f → Answers t (long_loop f t b)
unfolding Answers
long_loop-Answers zero t b h low fuel = absurd (omega arith)
long_loop-Answers (suc f) t b h low fuel = elim (lt_or_le 64 t) [
  | inl more ↦
      let block = buffer-Answers 64 b (omega arith) (omega arith) h in
      let next = block.0 in
      subst (Answers t) (sym (long_loop-more f t b next more block.1)) (
        prepend-Answers 32 (t - 32) t (take 32 next) (long_loop f (t - 32) next)
          (omega (arith, length-take 32 next, block.2)) (omega arith)
          (long_loop-Answers f (t - 32) next block.2 (omega arith) (omega arith)))
  | inr done ↦ subst (Answers t) (sym (long_loop-done f t b done)) (buffer-Answers t b low done h)
]

blake2b_long_short :
    (outlen : ℕ) (x : Bytes)
    → outlen ≤ 64
    → blake2b_long outlen (some x) (length x) ≡ hash_with_length outlen outlen (some x) (length x)
unfolding blake2b_long
blake2b_long_short outlen x h =
    let accepted : ltb 4294967295 outlen ≡ false = ground arith in
    let short : leb outlen 64 ≡ true = ground arith in rw (accepted, short)

blake2b_long_long :
    (outlen : ℕ) (x first : Bytes)
    → 64 < outlen
    → outlen < 2 ^ 32
    → hash_with_length 64 outlen (some x) (length x) ≡ some first
    → blake2b_long outlen (some x) (length x)
      ≡ prepend (take 32 first) (long_loop outlen (u32 outlen - 32) first)
unfolding blake2b_long
blake2b_long_long outlen x first h high e =
    let accepted : ltb 4294967295 outlen ≡ false = ground arith in
    let long : leb outlen 64 ≡ false = ground arith in rw (accepted, long, e)

-- For a digest length from 1 to 2^32 - 1 and any input, `blake2b_long` answers, with a digest of
-- that length.
pub blake2b_long-Answers :
    (outlen : ℕ) (x : Bytes)
    → 1 ≤ outlen
    → outlen < 2 ^ 32
    → Answers outlen (blake2b_long outlen (some x) (length x))
unfolding Answers
blake2b_long-Answers outlen x low high = elim (lt_or_le 64 outlen) [
  | inl more ↦
      let block = hash_with_length-Answers 64 outlen x (omega arith) (omega arith) in
      let first = block.0 in
      let rest = u32 outlen - 32 in
      subst (Answers outlen) (sym (blake2b_long_long outlen x first more high block.1)) (
        prepend-Answers 32 rest outlen (take 32 first) (long_loop outlen rest first)
          (omega (arith, length-take 32 first, block.2)) (omega arith)
          (long_loop-Answers outlen rest first block.2 (omega arith) (omega arith)))
  | inr done ↦
      subst (Answers outlen) (sym (blake2b_long_short outlen x done))
        (hash_with_length-Answers outlen outlen x low done)
]
