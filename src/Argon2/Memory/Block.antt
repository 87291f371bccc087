-- ===== src/Argon2/Memory/Block.antt =====
-- A block of 128 words: the functions on blocks of core.c. `copy_block` is the identity here, since a
-- block is a value.
use security_core.Common.{
  ℕ, zero, suc, ◌+◌, ◌*◌, ◌^◌, ◌<◌, ◌≡◌, refl, sym, ap, ap₂, ◌∙◌, bit_xor, List, [], ◌∷◌, ◌++◌, All,
  Bytes, length, get_or, replicate, get_or-append_more, arith,
}
use security_core.Argon2.Blake2b.Word.{load64, store64, load64-store64}

abbrev pub qwords_in_block : ℕ
qwords_in_block = 128

abbrev pub block_size : ℕ
block_size = 1024

abbrev pub Block : Type 0
Block = List ℕ

-- `memset` with one byte.
unfoldable pub init_block_value : ℕ → Block
init_block_value byte = replicate qwords_in_block (byte * 0x0101_0101_0101_0101)

-- `dst->v[i] ^= src->v[i]` for each word.
unfoldable pub xor_block : Block → Block → Block
xor_block [] src = []
xor_block (w ∷ dst) [] = w ∷ dst
xor_block (w ∷ dst) (x ∷ src) = bit_xor w x ∷ xor_block dst src

-- `count` words from the word `i` on.
unfoldable pub load_from : ℕ → ℕ → Bytes → Block
load_from zero i input = []
load_from (suc count) i input = load64 input (i * 8) ∷ load_from count (i + 1) input

unfoldable pub load_block : Bytes → Block
load_block input = load_from qwords_in_block 0 input

unfoldable pub store_block : Block → Bytes
store_block [] = []
store_block (w ∷ src) = store64 w ++ store_block src

-- Each of the 128 words has 64 bits.
abbrev pub IsBlock : Block → Type 0
IsBlock b = (length b ≡ 128) × All (λ w. w < 2 ^ 64) b

-- A word behind one that was stored.
load64-skip : (w i j : ℕ) (more : Bytes) → i ≡ 8 + j → load64 (store64 w ++ more) i ≡ load64 more j
unfolding load64 store64
load64-skip w i j more h =
    let at : (a b : ℕ) → a ≡ 8 + b → get_or (store64 w ++ more) a 0 ≡ get_or more b 0 =
      λ a b e. get_or-append_more (store64 w) more a b 0 e in
    rw (
      at i j h,
      at (i + 1) (j + 1) (omega arith),
      at (i + 2) (j + 2) (omega arith),
      at (i + 3) (j + 3) (omega arith),
      at (i + 4) (j + 4) (omega arith),
      at (i + 5) (j + 5) (omega arith),
      at (i + 6) (j + 6) (omega arith),
      at (i + 7) (j + 7) (omega arith),
    )

load64-first : (w : ℕ) (more : Bytes) → w < 2 ^ 64 → load64 (store64 w ++ more) 0 ≡ w
unfolding load64 store64
load64-first w more h = load64-store64 w h

load_from-skip :
    (count w i j : ℕ) (more : Bytes)
    → i ≡ j + 1
    → load_from count i (store64 w ++ more) ≡ load_from count j more
unfolding load_from
load_from-skip zero w i j more h = refl
load_from-skip (suc count) w i j more h =
    ap₂ (λ x y. x ∷ y) (load64-skip w (i * 8) (j * 8) more (omega arith))
      (load_from-skip count w (i + 1) (j + 1) more (omega arith))

load_from-store_block :
    (b : Block) → All (λ w. w < 2 ^ 64) b → load_from (length b) 0 (store_block b) ≡ b
unfolding load_from store_block
load_from-store_block [] h = refl
load_from-store_block (w ∷ b) (small, h) =
    ap₂ (λ x y. x ∷ y) (load64-first w (store_block b) small)
      (load_from-skip (length b) w 1 0 (store_block b) refl ∙ load_from-store_block b h)

-- A block of 128 words of 64 bits that `store_block` writes to bytes, `load_block` reads back.
load_block-store_block : (b : Block) → IsBlock b → load_block (store_block b) ≡ b
unfolding load_block
load_block-store_block b (n, h) =
    ap (λ (k : ℕ). load_from k 0 (store_block b)) (sym n) ∙ load_from-store_block b h

pub length-store_block : (b : Block) → length (store_block b) ≡ 8 * length b
unfolding store_block store64
length-store_block [] = omega arith
length-store_block (w ∷ b) = omega (arith, length-store_block b)

pub length-xor_block : (dst src : Block) → length (xor_block dst src) ≡ length dst
unfolding xor_block
length-xor_block [] src = refl
length-xor_block (w ∷ dst) [] = refl
length-xor_block (w ∷ dst) (x ∷ src) = ap suc (length-xor_block dst src)
