-- ===== src/Argon2/Memory/Finalize.antt =====
-- `allocate_memory`, `fill_first_blocks` and `finalize` of core.c. The allocator is a parameter: it
-- has memory for a number of bytes or not.
use native.Mathlib.Nat.{div-mul-le_self, div-eq_of_eq-mul_left}
use security_core.Common.{
  ℕ, zero, suc, ◌+◌, ◌-◌, ◌*◌, ◌/◌, ◌^◌, ◌≡◌, ◌≤◌, ◌<◌, ◌↔◌, refl, sym, ap, subst, ◌∙◌, Bool, true,
  false, not, ◌&&◌, Option, none, some, ◌++◌, Bytes, length, set, ◌==◌, ==_iff, Bool-cases, u32,
  u64, Result, ok, ◌>>◌, guard, guard-eq-ok, inl, inr, arith,
}
use security_core.Argon2.Types.{ErrorCode, memory_allocation_error}
use security_core.Argon2.Index.{Instance}
use security_core.Argon2.Blake2b.Word.{store32}
use security_core.Argon2.Blake2b.Hash.{blake2b_long}
use security_core.Argon2.Blake2b.Hash.Size.{Answers}
use security_core.Argon2.Blake2b.Hash.Long.{blake2b_long-Answers}
use security_core.Argon2.Memory.Block.{
  Block, block_size, xor_block, load_block, store_block, length-store_block, length-xor_block,
}
use security_core.Argon2.Memory.Segment.{Memory, block_at}

-- The number of bytes that were allocated; the pointer to the result is not NULL.
unfoldable pub allocate_memory : (ℕ → Bool) → ℕ → ℕ → Result ErrorCode ℕ
allocate_memory allocator num size = do
  let memory_size = u64 (num * size)
  guard (not (not (size == 0) && not (memory_size / size == num))) memory_allocation_error
  guard (allocator memory_size) memory_allocation_error
  ok memory_size

-- The block for the counter 0 or 1 in the lane `l`; `none` is a failure of the hash, which leaves the
-- buffer as it is.
unfoldable pub first_block : Bytes → ℕ → ℕ → Option Bytes
first_block blockhash counter l =
    blake2b_long block_size (some (blockhash ++ (store32 counter ++ store32 l))) 72

unfoldable pub load_if : Option Bytes → Block → Block
load_if none b = b
load_if (some bytes) b = load_block bytes

-- `count` lanes from the lane `l` on.
unfoldable pub fill_first_blocks : Instance → Bytes → ℕ → ℕ → Memory → Memory
fill_first_blocks i blockhash zero l memory = memory
fill_first_blocks i blockhash (suc count) l memory =
    let start = u32 (l * i.lane_length) in
    let m1 = set memory start (load_if (first_block blockhash 0 l) (block_at memory start)) in
    let m2 =
      set m1 (u32 (start + 1))
        (load_if (first_block blockhash 1 l) (block_at m1 (u32 (start + 1)))) in
    fill_first_blocks i blockhash count (l + 1) m2

-- The exclusive or of the last blocks of `count` lanes from the lane `l` on.
unfoldable pub xor_last_blocks : Instance → Memory → ℕ → ℕ → Block → Block
xor_last_blocks i memory zero l b = b
xor_last_blocks i memory (suc count) l b =
    xor_last_blocks i memory count (l + 1)
      (xor_block b (block_at memory (u32 (u32 (l * i.lane_length) + (i.lane_length - 1)))))

-- The tag.
unfoldable pub finalize : Instance → ℕ → Memory → Option Bytes
finalize i outlen memory =
    let blockhash =
      xor_last_blocks i memory (i.lanes - 1) 1 (block_at memory (i.lane_length - 1)) in
    blake2b_long outlen (some (store_block blockhash)) block_size

length-xor_last_blocks :
    (i : Instance) (memory : Memory) (count l : ℕ) (b : Block)
    → length (xor_last_blocks i memory count l b) ≡ length b
unfolding xor_last_blocks
length-xor_last_blocks i memory zero l b = refl
length-xor_last_blocks i memory (suc count) l b =
    length-xor_last_blocks i memory count (l + 1) _ ∙ length-xor_block b _

-- If the last block of the first lane has its 128 words, the finalisation gives a tag of the wanted
-- length, for each length from 1 to 2^32 - 1.
pub finalize-Answers :
    (i : Instance) (outlen : ℕ) (memory : Memory)
    → length (block_at memory (i.lane_length - 1)) ≡ 128
    → 1 ≤ outlen
    → outlen < 2 ^ 32
    → Answers outlen (finalize i outlen memory)
unfolding finalize
finalize-Answers i outlen memory h low high =
    let b = xor_last_blocks i memory (i.lanes - 1) 1 (block_at memory (i.lane_length - 1)) in
    let same =
      length-xor_last_blocks i memory (i.lanes - 1) 1 (block_at memory (i.lane_length - 1)) in
    let n : length (store_block b) ≡ 1024 = omega (arith, length-store_block b, same, h) in
    subst (λ (k : ℕ). Answers outlen (blake2b_long outlen (some (store_block b)) k)) n
      (blake2b_long-Answers outlen (store_block b) low high)

-- A product that has wrapped is seen by the division.
wrapped : (num size : ℕ) → 1 ≤ size → u64 (num * size) / size ≡ num → num * size < 2 ^ 64
wrapped num size pos h =
    let e = div-mul-le_self (u64 (num * size)) size in
    let f : num * size ≤ u64 (num * size) = subst (λ t. t * size ≤ u64 (num * size)) h e in
    omega (arith, f)

not_wrapped : (num size : ℕ) → 1 ≤ size → num * size < 2 ^ 64 → u64 (num * size) / size ≡ num
not_wrapped num size pos h = div-eq_of_eq-mul_left pos (omega (arith, h))

second : (a b : Bool) → a ≡ false → not (not a && not b) ≡ true → b ≡ true
second true b e h = cc (e)
second false true e h = refl
second false false e h = cc (h)

-- The test of the multiplication.
test_iff :
    (num size : ℕ)
    → (not (not (size == 0) && not (u64 (num * size) / size == num)) ≡ true) ↔ (num * size < 2 ^ 64)
test_iff num size = elim (Bool-cases (size == 0)) [
  | inl e ↦
      let z : size ≡ 0 = (==_iff size 0).0 e in
      let product : num * size ≡ 0 = ap (λ (t : ℕ). num * t) z ∙ omega arith in
      ((λ h. omega (arith, product)), (λ h. rw e refl))
  | inr e ↦
      let pos : 1 ≤ size = ground (arith, e) in
      (
        (λ h. wrapped num size pos (
            (==_iff (u64 (num * size) / size) num).0
              (second (size == 0) (u64 (num * size) / size == num) e h))),
        (λ h. rw (e, (==_iff (u64 (num * size) / size) num).1 (not_wrapped num size pos h)) refl),
      )
]

-- `allocate_memory` succeeds exactly if the number of bytes does not overflow 64 bits and the
-- allocator has memory for it; then it asked for this number.
pub allocate_memory_iff :
    (allocator : ℕ → Bool) (num size bytes : ℕ)
    → (allocate_memory allocator num size ≡ ok bytes)
      ↔ ((num * size < 2 ^ 64) × (bytes ≡ num * size) × (allocator bytes ≡ true))
unfolding allocate_memory
allocate_memory_iff allocator num size bytes = (
  (λ h.
      let (test, h1) = guard-eq-ok _ _ _ h in
      let (room, h2) = guard-eq-ok (allocator (u64 (num * size))) _ _ h1 in
      let fits = (test_iff num size).0 test in
      let e : u64 (num * size) ≡ bytes = cc (h2) in
      (fits, omega (arith, fits, e), ap allocator (sym e) ∙ room)),
  (λ h.
      let (fits, e, room) = h in
      let same : u64 (num * size) ≡ bytes = omega (arith, fits, e) in
      rw ((test_iff num size).1 fits, same, room) refl),
)
