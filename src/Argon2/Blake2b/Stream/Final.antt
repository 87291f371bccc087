-- ===== src/Argon2/Blake2b/Stream/Final.antt =====
-- `blake2b_final` and the bytes of the buffer that are in use.
use security_core.Common.{
  ℕ, ◌-◌, ◌≡◌, sym, ap, ◌∙◌, inl, inr, Option, some, List, [], ◌++◌, Bytes, length, take, ltb,
  replicate, Bool-cases, not, none, ◌||◌, ◌==◌, if◌then◌else◌,
}
use security_core.Argon2.Blake2b.Compress.{State, blake2b_compress, blake2b_increment_counter}
use security_core.Argon2.Blake2b.Stream.{
  blake2b_set_lastblock, last_block, blake2b_final, store_words,
}
use security_core.Argon2.Blake2b.Stream.Loop.{with_buf, erased, pending, IsReady}
use security_core.Argon2.Blake2b.Stream.Update.{meaning, length-pending}
use security_core.Argon2.Blake2b.Stream.Chunks.{fed, fed_all, joined, meaning-fed_all}

set_lastblock-with_buf :
    (b : Bytes) (n : ℕ) (s : State)
    → blake2b_set_lastblock (with_buf b n s) ≡ with_buf b n (blake2b_set_lastblock s)
unfolding blake2b_set_lastblock
set_lastblock-with_buf b n s = elim (Bool-cases (s.last_node == 0)) [ inl e ↦ rw e | inr e ↦ rw e ]

-- The last compression from the count of the bytes that wait and these bytes.
abbrev pub closed : ℕ → Bytes → State → State
closed n t s =
    let block = t ++ replicate (128 - n) 0 in
    blake2b_compress (with_buf block n (blake2b_set_lastblock (blake2b_increment_counter s n)))
      block

last_block-closed :
    (b : Bytes) (n : ℕ) (s : State) → last_block (with_buf b n s) ≡ closed n (take n b) s
unfolding last_block blake2b_increment_counter
last_block-closed b n s =
    let block : State → Bytes = λ t. take t.buflen t.buf ++ replicate (128 - t.buflen) 0 in
    ap (λ t. blake2b_compress (record t { buf = block t }) (block t))
      (set_lastblock-with_buf b n (blake2b_increment_counter s n))

abbrev pub hash_of : State → Bytes
hash_of s = take s.outlen (store_words s.h)

abbrev pub answer_at : State → ℕ → Bytes → Option Bytes
answer_at s k hash = if ltb k s.outlen || not (s.f0 == 0) then none else some hash

closed-erased : (n : ℕ) (t : Bytes) (s : State) → closed n t (erased s) ≡ closed n t s
unfolding blake2b_increment_counter
closed-erased n t s =
    let block = t ++ replicate (128 - n) 0 in
    ap (λ u. blake2b_compress (with_buf block n u) block)
      (set_lastblock-with_buf [] 0 (blake2b_increment_counter s n))

pub final-closed :
    (b : Bytes) (n : ℕ) (s : State) (k : ℕ)
    → (blake2b_final (with_buf b n s) k).1 ≡ answer_at s k (hash_of (closed n (take n b) s))
unfolding blake2b_final
final-closed b n s k = elim (Bool-cases (ltb k s.outlen || not (s.f0 == 0))) [
  | inl e ↦ rw e
  | inr e ↦ rw e (ap (λ t. some (hash_of t)) (last_block-closed b n s))
]

-- The output reads the buffer only up to its bytes in use.
final-meaning :
    (s t : State) (k : ℕ)
    → IsReady s
    → IsReady t
    → meaning s ≡ meaning t
    → (blake2b_final s k).1 ≡ (blake2b_final t k).1
final-meaning s t k r q e =
    let answer : State × Bytes → Option Bytes =
      λ m. answer_at m.0 k (hash_of (closed (length m.1) m.1 m.0)) in
    let front : (s : State) → IsReady s → (blake2b_final s k).1 ≡ answer (meaning s) = λ s r.
      final-closed s.buf s.buflen s k
      ∙ ap (λ c. answer_at s k (hash_of c)) (sym (closed-erased s.buflen (pending s) s))
      ∙ ap (λ n. answer_at s k (hash_of (closed n (pending s) (erased s))))
          (sym (length-pending s r)) in
    front s r ∙ ap answer e ∙ sym (front t q)

pub final-fed_all :
    (s : State) (xs : List Bytes) (k : ℕ)
    → IsReady s
    → (blake2b_final (fed_all s xs) k).1 ≡ (blake2b_final (fed s (joined xs)) k).1
final-fed_all s xs k r =
    let same = meaning-fed_all s xs r in
    final-meaning (fed_all s xs) (fed s (joined xs)) k same.1.0 same.1.1 same.0
