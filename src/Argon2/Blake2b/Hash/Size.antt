-- ===== src/Argon2/Blake2b/Hash/Size.antt =====
-- The sizes of the state and of the output of `blake2b`.
use security_core.Common.{
  true, ◌⊎◌, ◌<◌, ◌==◌, ℕ, zero, suc, ◌*◌, ◌≤◌, ◌≡◌, refl, sym, ap, subst, ◌∙◌, false, Option, none,
  some, List, [], ◌∷◌, ◌++◌, ◌||◌, not, Bytes, length, ltb, ◌==◌, if◌then◌else◌, arith, u8, inl,
  inr, take, drop, length-take, Bool-cases, lt_or_le,
}
use security_core.Argon2.Blake2b.Word.{store64}
use security_core.Argon2.Blake2b.Compress.{
  State, blake2b_iv, load_words, xor_words, blake2b_compress, blake2b_increment_counter,
}
use security_core.Argon2.Blake2b.Stream.{
  blake2b_init_param, blake2b_init0, param_block, blake2b_final, absorb_block, absorb_loop,
  store_words, blake2b_set_lastblock,
}
use security_core.Argon2.Blake2b.Stream.Loop.{
  erased, pending, IsReady, absorb_loop-done, absorb_loop-more,
}
use security_core.Argon2.Blake2b.Stream.Chunks.{fed, fed-Streams}
use security_core.Argon2.Blake2b.Stream.Update.{Streams}
use security_core.Argon2.Blake2b.Stream.Final.{final-closed, closed, hash_of}
use security_core.Argon2.Blake2b.Hash.{blake2b}
use security_core.Argon2.Blake2b.Hash.Whole.{started, started-IsReady, blake2b-fed}

length-xor_words : (xs ys : List ℕ) → length (xor_words xs ys) ≡ length xs
unfolding xor_words
length-xor_words [] ys = refl
length-xor_words (x ∷ xs) [] = refl
length-xor_words (x ∷ xs) (y ∷ ys) = ap suc (length-xor_words xs ys)

-- Eight chain words, and a digest of `n` bytes.
abbrev pub HasSize : ℕ → State → Type 0
HasSize n s = (length s.h ≡ 8) × (s.outlen ≡ n)

compress-HasSize :
    (n : ℕ) (s : State) (block : Bytes) → HasSize n s → HasSize n (blake2b_compress s block)
unfolding blake2b_compress
compress-HasSize n s block (h, o) = (length-xor_words _ _ ∙ length-xor_words s.h _ ∙ h, o)

absorb_block-HasSize :
    (n : ℕ) (s : State) (block : Bytes) → HasSize n s → HasSize n (absorb_block s block)
unfolding absorb_block blake2b_increment_counter
absorb_block-HasSize n s block h = compress-HasSize n (blake2b_increment_counter s 128) block h

absorb_loop-HasSize :
    (f n : ℕ) (s : State) (p : Bytes) → HasSize n s → HasSize n (absorb_loop f s p).0
absorb_loop-HasSize zero n s p h = unfold absorb_loop in h
absorb_loop-HasSize (suc f) n s p h = elim (lt_or_le 128 (length p)) [
  | inl more ↦
      subst (λ r. HasSize n r.0) (sym (absorb_loop-more f s p more))
        (absorb_loop-HasSize f n _ (drop 128 p) (absorb_block-HasSize n s (take 128 p) h))
  | inr done ↦ subst (λ r. HasSize n r.0) (sym (absorb_loop-done (suc f) s p done)) h
]

pub fed-HasSize : (n : ℕ) (s : State) (x : Bytes) → IsReady s → HasSize n s → HasSize n (fed s x)
unfolding Streams
fed-HasSize n s x r h =
    subst (λ m. HasSize n m.0) (sym (fed-Streams s x r).0)
      (absorb_loop-HasSize (length (pending s ++ x)) n (erased s) (pending s ++ x) h)

pub fed-IsReady : (s : State) (x : Bytes) → IsReady s → IsReady (fed s x)
unfolding Streams
fed-IsReady s x r = (fed-Streams s x r).1

-- An answer of `n` bytes.
unfoldable pub Answers : ℕ → Option Bytes → Type 0
Answers n answer = (out : Bytes) × (answer ≡ some out) × (length out ≡ n)

length-store_words : (ws : List ℕ) → length (store_words ws) ≡ 8 * length ws
unfolding store_words store64
length-store_words [] = refl
length-store_words (w ∷ ws) = omega (arith, length-store_words ws)

set_lastblock-HasSize : (n : ℕ) (s : State) → HasSize n s → HasSize n (blake2b_set_lastblock s)
unfolding blake2b_set_lastblock
set_lastblock-HasSize n s h = elim (Bool-cases (s.last_node == 0)) [
  | inl e ↦ rw e h
  | inr e ↦ rw e h
]

closed-HasSize : (n k : ℕ) (t : Bytes) (s : State) → HasSize n s → HasSize n (closed k t s)
unfolding blake2b_increment_counter
closed-HasSize n k t s h =
    compress-HasSize n _ _ (set_lastblock-HasSize n (blake2b_increment_counter s k) h)

pub final-Answers :
    (n : ℕ) (s : State) → n ≤ 64 → IsReady s → HasSize n s → Answers n (blake2b_final s n).1
unfolding Answers
final-Answers n s high r h =
    let c = closed s.buflen (pending s) s in
    let c_size = closed-HasSize n s.buflen (pending s) s h in
    let accepted : (ltb n s.outlen || not (s.f0 == 0)) ≡ false = ground arith in
    (
      hash_of c,
      final-closed s.buf s.buflen s n ∙ ap (λ b. if b then none else some (hash_of c)) accepted,
      omega (
        arith,
        length-take c.outlen (store_words c.h),
        length-store_words c.h,
        c_size.0,
        c_size.1,
      ),
    )

pub started-HasSize : (n : ℕ) → n ≤ 64 → HasSize n (started n)
unfolding blake2b_init_param blake2b_init0 param_block
started-HasSize n high = (
  length-xor_words blake2b_iv (load_words 8 0 (param_block (u8 n) 0)) ∙ unfold blake2b_iv in refl,
  omega arith,
)

-- The unkeyed hash of any input has every accepted length.
pub blake2b-Answers :
    (n : ℕ) (x : Bytes) → 1 ≤ n → n ≤ 64 → Answers n (blake2b n (some x) (length x) none 0)
blake2b-Answers n x low high =
    let s = started n in
    let r = started-IsReady n in
    subst (Answers n) (sym (blake2b-fed n x low high)) (
      final-Answers n (fed s x) high (fed-IsReady s x r)
        (fed-HasSize n s x r (started-HasSize n high)))

blake2b_bad_length :
    (n : ℕ) (x : Bytes) → (n ≡ 0) ⊎ (64 < n) → blake2b n (some x) (length x) none 0 ≡ none
unfolding blake2b
blake2b_bad_length n x bad =
    let refused : ((n == 0) || ltb 64 n) ≡ true = ground arith in rw refused

-- For every output length and input, without a key, `blake2b` succeeds with an output of that
-- length if this is from 1 to 64, and fails otherwise.
pub blake2b_total :
    (n : ℕ) (x : Bytes)
    → ((1 ≤ n) × (n ≤ 64) × Answers n (blake2b n (some x) (length x) none 0))
      ⊎ (((n ≡ 0) ⊎ (64 < n)) × (blake2b n (some x) (length x) none 0 ≡ none))
blake2b_total n x = elim (lt_or_le 64 n) [
  | inl more ↦ inr (inr more, blake2b_bad_length n x (inr more))
  | inr fits ↦ elim (lt_or_le 0 n) [
    | inl pos ↦ inl (omega arith, fits, blake2b-Answers n x (omega arith) fits)
    | inr none_left ↦ let e : n ≡ 0 = omega arith in inr (inl e, blake2b_bad_length n x (inl e))
  ]
]
