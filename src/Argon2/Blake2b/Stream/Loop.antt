-- ===== src/Argon2/Blake2b/Stream/Loop.antt =====
-- The loop of `blake2b_update` as a function of the bytes that are left.
use security_core.Common.{
  ℕ, zero, suc, ◌≤◌, ◌<◌, ◌≡◌, refl, sym, ap, ap₂, ◌∙◌, inl, inr, [], ◌++◌, Bytes, length,
  length-append, length-drop, take, drop, take-append_less, drop-append_less, lt_or_le, lt→ltb,
  le→ltb, arith,
}
use security_core.Argon2.Blake2b.Compress.{State, blake2b_compress, blake2b_increment_counter}
use security_core.Argon2.Blake2b.Stream.{absorb_block, absorb_loop}

abbrev pub with_buf : Bytes → ℕ → State → State
with_buf b n s = record s { buf = b; buflen = n }

-- The state without its buffer.
abbrev pub erased : State → State
erased s = with_buf [] 0 s

-- The bytes that wait in the buffer.
abbrev pub pending : State → Bytes
pending s = take s.buflen s.buf

-- The block buffer is 128 bytes long, and its bytes in use are.
pub record IsReady (s : State) : Type 0 where
  pub not_final : s.f0 ≡ 0
  pub buf_128 : length s.buf ≡ 128
  pub buflen_range : s.buflen ≤ 128

absorb_block-with_buf :
    (b : Bytes) (n : ℕ) (s : State) (x : Bytes)
    → absorb_block (with_buf b n s) x ≡ with_buf b n (absorb_block s x)
unfolding absorb_block blake2b_compress blake2b_increment_counter
absorb_block-with_buf b n s x = refl

absorb_block-f0 : (s : State) (x : Bytes) → (absorb_block s x).f0 ≡ s.f0
unfolding absorb_block blake2b_compress blake2b_increment_counter
absorb_block-f0 s x = refl

pub absorb_loop-more :
    (fuel : ℕ) (s : State) (p : Bytes)
    → 128 < length p
    → absorb_loop (suc fuel) s p ≡ absorb_loop fuel (absorb_block s (take 128 p)) (drop 128 p)
unfolding absorb_loop
absorb_loop-more fuel s p h = rw (lt→ltb 128 (length p) h)

pub absorb_loop-done :
    (fuel : ℕ) (s : State) (p : Bytes) → length p ≤ 128 → absorb_loop fuel s p ≡ (s, p)
unfolding absorb_loop
absorb_loop-done zero s p h = refl
absorb_loop-done (suc fuel) s p h = rw (le→ltb 128 (length p) h)

-- With the length as fuel the loop ends by its test, and more fuel changes nothing.
absorb_loop_fuel :
    (f g : ℕ) (s : State) (p : Bytes)
    → length p ≤ f
    → length p ≤ g
    → absorb_loop f s p ≡ absorb_loop g s p
absorb_loop_fuel zero g s p hf hg =
    absorb_loop-done 0 s p (omega arith) ∙ sym (absorb_loop-done g s p (omega arith))
absorb_loop_fuel (suc f) zero s p hf hg =
    absorb_loop-done (suc f) s p (omega arith) ∙ sym (absorb_loop-done 0 s p (omega arith))
absorb_loop_fuel (suc f) (suc g) s p hf hg = elim (lt_or_le 128 (length p)) [
  | inl more ↦
      absorb_loop-more f s p more
      ∙ absorb_loop_fuel f g _ (drop 128 p) (omega (arith, length-drop 128 p))
          (omega (arith, length-drop 128 p))
      ∙ sym (absorb_loop-more g s p more)
  | inr done ↦ absorb_loop-done (suc f) s p done ∙ sym (absorb_loop-done (suc g) s p done)
]

pub absorb_loop-with_buf :
    (f : ℕ) (b : Bytes) (n : ℕ) (s : State) (p : Bytes)
    → absorb_loop f (with_buf b n s) p ≡ (with_buf b n (absorb_loop f s p).0, (absorb_loop f s p).1)
absorb_loop-with_buf zero b n s p = unfold absorb_loop in refl
absorb_loop-with_buf (suc f) b n s p = elim (lt_or_le 128 (length p)) [
  | inl more ↦
      absorb_loop-more f (with_buf b n s) p more
      ∙ ap (λ t. absorb_loop f t (drop 128 p)) (absorb_block-with_buf b n s (take 128 p))
      ∙ absorb_loop-with_buf f b n (absorb_block s (take 128 p)) (drop 128 p)
      ∙ sym (ap (λ r. (with_buf b n r.0, r.1)) (absorb_loop-more f s p more))
  | inr done ↦
      absorb_loop-done (suc f) (with_buf b n s) p done
      ∙ sym (ap (λ r. (with_buf b n r.0, r.1)) (absorb_loop-done (suc f) s p done))
]

abbrev pub LoopEnds : State → State × Bytes → Type 0
LoopEnds s r = (length r.1 ≤ 128) × (r.0.f0 ≡ s.f0)

pub absorb_loop_short :
    (f : ℕ) (s : State) (p : Bytes) → length p ≤ f → LoopEnds s (absorb_loop f s p)
absorb_loop_short zero s p h = rw (absorb_loop-done 0 s p (omega arith)) (omega arith, refl)
absorb_loop_short (suc f) s p h = elim (lt_or_le 128 (length p)) [
  | inl more ↦
      let rest =
        absorb_loop_short f (absorb_block s (take 128 p)) (drop 128 p)
          (omega (arith, length-drop 128 p)) in
      rw (absorb_loop-more f s p more) (rest.0, rest.1 ∙ absorb_block-f0 s (take 128 p))
  | inr done ↦ rw (absorb_loop-done (suc f) s p done) (done, refl)
]

-- All input that is pending goes through the loop.
abbrev pub stream : State → Bytes → State × Bytes
stream e p = absorb_loop (length p) e p

pub stream-more :
    (e : State) (p : Bytes)
    → 128 < length p
    → stream e p ≡ stream (absorb_block e (take 128 p)) (drop 128 p)
stream-more e p h =
    absorb_loop_fuel (length p) (suc (length p)) e p (omega arith) (omega arith)
    ∙ absorb_loop-more (length p) e p h
    ∙ absorb_loop_fuel (length p) (length (drop 128 p)) _ (drop 128 p)
        (omega (arith, length-drop 128 p)) (omega arith)

pub stream-stream :
    (n : ℕ) (e : State) (p y : Bytes)
    → length p ≤ n
    → stream (stream e p).0 ((stream e p).1 ++ y) ≡ stream e (p ++ y)
stream-stream zero e p y h =
    ap (λ r. stream r.0 (r.1 ++ y)) (absorb_loop-done (length p) e p (omega arith))
stream-stream (suc n) e p y h = elim (lt_or_le 128 (length p)) [
  | inl more ↦
      let longer : 128 < length (p ++ y) = omega (arith, length-append p y) in
      ap (λ r. stream r.0 (r.1 ++ y)) (stream-more e p more)
      ∙ stream-stream n (absorb_block e (take 128 p)) (drop 128 p) y
          (omega (arith, length-drop 128 p))
      ∙ sym (
          stream-more e (p ++ y) longer
          ∙ ap₂ (λ b d. stream (absorb_block e b) d) (take-append_less p y 128 (omega arith))
              (drop-append_less p y 128 (omega arith)))
  | inr done ↦ ap (λ r. stream r.0 (r.1 ++ y)) (absorb_loop-done (length p) e p done)
]
