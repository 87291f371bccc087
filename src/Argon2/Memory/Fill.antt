-- ===== src/Argon2/Memory/Fill.antt =====
-- The compression of two blocks: blake2/blamka-round-ref.h and `fill_block` of ref.c.
use security_core.Common.{
  ℕ, zero, suc, ◌+◌, ◌*◌, ◌/◌, ◌%◌, ◌≡◌, ◌∙◌, Bool, true, false, bit_and, bit_xor, get_or, set,
  length, u64, if◌then◌else◌,
}
use security_core.Argon2.Blake2b.Word.{rotr64}
use security_core.Argon2.Memory.Block.{Block, xor_block, length-xor_block}

-- `x + y + 2 * (low half of x) * (low half of y)` in 64 bits.
unfoldable pub f_bla_mka : ℕ → ℕ → ℕ
f_bla_mka x y =
    let xy = u64 (bit_and x 0xffff_ffff * bit_and y 0xffff_ffff) in u64 (u64 (x + y) + u64 (2 * xy))

-- The macro G on the words a, b, c and d of `v`.
unfoldable pub mix_nomsg : ℕ → ℕ → ℕ → ℕ → Block → Block
unfolding f_bla_mka rotr64
mix_nomsg a b c d v =
    let a1 = f_bla_mka (get_or v a 0) (get_or v b 0) in
    let d1 = rotr64 (bit_xor (get_or v d 0) a1) 32 in
    let c1 = f_bla_mka (get_or v c 0) d1 in
    let b1 = rotr64 (bit_xor (get_or v b 0) c1) 24 in
    let a2 = f_bla_mka a1 b1 in
    let d2 = rotr64 (bit_xor d1 a2) 16 in
    let c2 = f_bla_mka c1 d2 in
    let b2 = rotr64 (bit_xor b1 c2) 63 in set (set (set (set v a a2) b b2) c c2) d d2

-- BLAKE2_ROUND_NOMSG on the words `at 0` to `at 15`.
unfoldable pub round_nomsg : (ℕ → ℕ) → Block → Block
unfolding mix_nomsg
round_nomsg at v0 =
    let v1 = mix_nomsg (at 0) (at 4) (at 8) (at 12) v0 in
    let v2 = mix_nomsg (at 1) (at 5) (at 9) (at 13) v1 in
    let v3 = mix_nomsg (at 2) (at 6) (at 10) (at 14) v2 in
    let v4 = mix_nomsg (at 3) (at 7) (at 11) (at 15) v3 in
    let v5 = mix_nomsg (at 0) (at 5) (at 10) (at 15) v4 in
    let v6 = mix_nomsg (at 1) (at 6) (at 11) (at 12) v5 in
    let v7 = mix_nomsg (at 2) (at 7) (at 8) (at 13) v6 in mix_nomsg (at 3) (at 4) (at 9) (at 14) v7

-- The words 16 i, 16 i + 1, ..., 16 i + 15.
abbrev pub column : ℕ → ℕ → ℕ
column i k = 16 * i + k

-- The words 2 i, 2 i + 1, 2 i + 16, 2 i + 17, ..., 2 i + 112, 2 i + 113.
abbrev pub row : ℕ → ℕ → ℕ
row i k = 2 * i + 16 * (k / 2) + k % 2

-- The two loops of `fill_block`, each `count` times from `i` on.
unfoldable pub columns : ℕ → ℕ → Block → Block
unfolding round_nomsg
columns zero i v = v
columns (suc count) i v = columns count (i + 1) (round_nomsg (column i) v)

unfoldable pub rows : ℕ → ℕ → Block → Block
unfolding round_nomsg
rows zero i v = v
rows (suc count) i v = rows count (i + 1) (round_nomsg (row i) v)

-- prev_block, ref_block, the old next_block, with_xor: the new next_block.
unfoldable pub fill_block : Block → Block → Block → Bool → Block
unfolding xor_block columns rows
fill_block prev ref next with_xor =
    let r = xor_block ref prev in
    let tmp = if with_xor then xor_block r next else r in xor_block tmp (rows 8 0 (columns 8 0 r))

-- The address block and the input block.
pub record Addresses : Type 0 where
  pub address : Block
  pub input : Block

-- `next_addresses`; the zero block is that of the caller.
unfoldable pub next_addresses : Block → Addresses → Addresses
unfolding fill_block
next_addresses zero_block a =
    let input = set a.input 6 (u64 (get_or a.input 6 0 + 1)) in
    let once = fill_block zero_block input a.address false in
    record { address = fill_block zero_block once once false; input = input }

pub length-fill_block :
    (prev ref next : Block) (with_xor : Bool)
    → length (fill_block prev ref next with_xor) ≡ length ref
unfolding fill_block
length-fill_block prev ref next true =
    length-xor_block (xor_block (xor_block ref prev) next)
      (rows 8 0 (columns 8 0 (xor_block ref prev)))
    ∙ length-xor_block (xor_block ref prev) next
    ∙ length-xor_block ref prev
length-fill_block prev ref next false =
    length-xor_block (xor_block ref prev) (rows 8 0 (columns 8 0 (xor_block ref prev)))
    ∙ length-xor_block ref prev
