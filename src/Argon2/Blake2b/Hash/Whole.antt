-- ===== src/Argon2/Blake2b/Hash/Whole.antt =====
-- The hash of an input that is given in pieces.
use security_core.Common.{
  ℕ, ◌≤◌, ◌≡◌, refl, sym, ap, ◌∙◌, Bool, true, false, Option, none, some, List, ◌||◌, Bytes, length,
  ltb, ◌==◌, arith, u8,
}
use security_core.Argon2.Blake2b.Compress.{State}
use security_core.Argon2.Blake2b.Stream.{
  cleared, blake2b_init, blake2b_init_param, param_block, blake2b_update, blake2b_final,
}
use security_core.Argon2.Blake2b.Stream.Loop.{IsReady}
use security_core.Argon2.Blake2b.Stream.Chunks.{fed, fed-true, fed_all, joined}
use security_core.Argon2.Blake2b.Stream.Final.{final-fed_all}
use security_core.Argon2.Blake2b.Hash.{blake2b, then_or_fail}

-- The state that `blake2b_init` leaves for a digest of `n` bytes.
abbrev pub started : ℕ → State
started n = blake2b_init_param (param_block (u8 n) 0)

pub init-started : (s : State) (n : ℕ) → 1 ≤ n → n ≤ 64 → blake2b_init s n ≡ (started n, true)
unfolding blake2b_init
init-started s n low high = let valid : ((n == 0) || ltb 64 n) ≡ false = ground arith in rw valid

pub started-IsReady : (n : ℕ) → IsReady (started n)
unfolding blake2b_init_param
started-IsReady n = record { not_final = refl; buf_128 = refl; buflen_range = omega arith }

pub blake2b-fed :
    (n : ℕ) (x : Bytes)
    → 1 ≤ n
    → n ≤ 64
    → blake2b n (some x) (length x) none 0 ≡ (blake2b_final (fed (started n) x) n).1
unfolding blake2b
blake2b-fed n x low high =
    let valid : ((n == 0) || ltb 64 n) ≡ false = ground arith in
    let close : State × Bool → Option Bytes = λ r. then_or_fail r λ s. (blake2b_final s n).1 in
    let update : State × Bool → Option Bytes =
      λ r. then_or_fail r λ s. close (blake2b_update s (some x) (length x)) in
    rw valid (
      ap update (init-started cleared n low high)
      ∙ ap close (fed-true (started n) x (started-IsReady n).not_final))

-- For an accepted length, the updates by the pieces of an input and `blake2b_final` give the
-- hash of the whole input.
pub final-pieces :
    (n : ℕ) (xs : List Bytes)
    → 1 ≤ n
    → n ≤ 64
    → (blake2b_final (fed_all (blake2b_init cleared n).0 xs) n).1
      ≡ blake2b n (some (joined xs)) (length (joined xs)) none 0
final-pieces n xs low high =
    ap (λ r. (blake2b_final (fed_all r.0 xs) n).1) (init-started cleared n low high)
    ∙ final-fed_all (started n) xs n (started-IsReady n)
    ∙ sym (blake2b-fed n (joined xs) low high)
