-- ===== src/Argon2/Blake2b/Compress.antt =====
-- The state and the compression function of blake2b.c.
use security_core.Common.{
  ℕ, zero, suc, ◌+◌, ◌*◌, bit_xor, List, [], ◌∷◌, ◌++◌, Bytes, get_or, set, take, drop, u64, ltb,
  if◌then◌else◌,
}
use security_core.Argon2.Blake2b.Word.{load64, rotr64}

abbrev pub block_bytes : ℕ
block_bytes = 128

abbrev pub out_bytes : ℕ
out_bytes = 64

abbrev pub key_bytes : ℕ
key_bytes = 64

pub record State : Type 0 where
  pub h : List ℕ
  pub t0 : ℕ
  pub t1 : ℕ
  pub f0 : ℕ
  pub f1 : ℕ
  pub buf : Bytes
  pub buflen : ℕ
  pub outlen : ℕ
  pub last_node : ℕ

unfoldable pub blake2b_iv : List ℕ
blake2b_iv =
    0x6a09e667f3bcc908 ∷ 0xbb67ae8584caa73b ∷ 0x3c6ef372fe94f82b ∷ 0xa54ff53a5f1d36f1
    ∷ 0x510e527fade682d1 ∷ 0x9b05688c2b3e6c1f ∷ 0x1f83d9abfb41bd6b ∷ 0x5be0cd19137e2179 ∷ []

unfoldable pub blake2b_sigma : List (List ℕ)
blake2b_sigma =
    (0 ∷ 1 ∷ 2 ∷ 3 ∷ 4 ∷ 5 ∷ 6 ∷ 7 ∷ 8 ∷ 9 ∷ 10 ∷ 11 ∷ 12 ∷ 13 ∷ 14 ∷ 15 ∷ [])
    ∷ (14 ∷ 10 ∷ 4 ∷ 8 ∷ 9 ∷ 15 ∷ 13 ∷ 6 ∷ 1 ∷ 12 ∷ 0 ∷ 2 ∷ 11 ∷ 7 ∷ 5 ∷ 3 ∷ [])
    ∷ (11 ∷ 8 ∷ 12 ∷ 0 ∷ 5 ∷ 2 ∷ 15 ∷ 13 ∷ 10 ∷ 14 ∷ 3 ∷ 6 ∷ 7 ∷ 1 ∷ 9 ∷ 4 ∷ [])
    ∷ (7 ∷ 9 ∷ 3 ∷ 1 ∷ 13 ∷ 12 ∷ 11 ∷ 14 ∷ 2 ∷ 6 ∷ 5 ∷ 10 ∷ 4 ∷ 0 ∷ 15 ∷ 8 ∷ [])
    ∷ (9 ∷ 0 ∷ 5 ∷ 7 ∷ 2 ∷ 4 ∷ 10 ∷ 15 ∷ 14 ∷ 1 ∷ 11 ∷ 12 ∷ 6 ∷ 8 ∷ 3 ∷ 13 ∷ [])
    ∷ (2 ∷ 12 ∷ 6 ∷ 10 ∷ 0 ∷ 11 ∷ 8 ∷ 3 ∷ 4 ∷ 13 ∷ 7 ∷ 5 ∷ 15 ∷ 14 ∷ 1 ∷ 9 ∷ [])
    ∷ (12 ∷ 5 ∷ 1 ∷ 15 ∷ 14 ∷ 13 ∷ 4 ∷ 10 ∷ 0 ∷ 7 ∷ 6 ∷ 3 ∷ 9 ∷ 2 ∷ 8 ∷ 11 ∷ [])
    ∷ (13 ∷ 11 ∷ 7 ∷ 14 ∷ 12 ∷ 1 ∷ 3 ∷ 9 ∷ 5 ∷ 0 ∷ 15 ∷ 4 ∷ 8 ∷ 6 ∷ 2 ∷ 10 ∷ [])
    ∷ (6 ∷ 15 ∷ 14 ∷ 9 ∷ 11 ∷ 3 ∷ 0 ∷ 8 ∷ 12 ∷ 2 ∷ 13 ∷ 7 ∷ 1 ∷ 4 ∷ 10 ∷ 5 ∷ [])
    ∷ (10 ∷ 2 ∷ 8 ∷ 4 ∷ 7 ∷ 6 ∷ 1 ∷ 5 ∷ 15 ∷ 11 ∷ 9 ∷ 14 ∷ 3 ∷ 12 ∷ 13 ∷ 0 ∷ [])
    ∷ (0 ∷ 1 ∷ 2 ∷ 3 ∷ 4 ∷ 5 ∷ 6 ∷ 7 ∷ 8 ∷ 9 ∷ 10 ∷ 11 ∷ 12 ∷ 13 ∷ 14 ∷ 15 ∷ [])
    ∷ (14 ∷ 10 ∷ 4 ∷ 8 ∷ 9 ∷ 15 ∷ 13 ∷ 6 ∷ 1 ∷ 12 ∷ 0 ∷ 2 ∷ 11 ∷ 7 ∷ 5 ∷ 3 ∷ [])
    ∷ []

unfoldable pub word : List ℕ → ℕ → ℕ
word v i = get_or v i 0

-- The macro G on the words a, b, c and d of `v`, with the message words x and y.
unfoldable pub mix : ℕ → ℕ → ℕ → ℕ → ℕ → ℕ → List ℕ → List ℕ
unfolding word rotr64
mix x y a b c d v =
    let a1 = u64 (u64 (word v a + word v b) + x) in
    let d1 = rotr64 (bit_xor (word v d) a1) 32 in
    let c1 = u64 (word v c + d1) in
    let b1 = rotr64 (bit_xor (word v b) c1) 24 in
    let a2 = u64 (u64 (a1 + b1) + y) in
    let d2 = rotr64 (bit_xor d1 a2) 16 in
    let c2 = u64 (c1 + d2) in
    let b2 = rotr64 (bit_xor b1 c2) 63 in set (set (set (set v a a2) b b2) c c2) d d2

-- G(r, i, …): the message words are chosen by the row `s` of `blake2b_sigma`.
unfoldable pub mix_at : List ℕ → List ℕ → ℕ → ℕ → ℕ → ℕ → ℕ → List ℕ → List ℕ
unfolding mix
mix_at m s i a b c d v = mix (word m (word s (2 * i))) (word m (word s (2 * i + 1))) a b c d v

-- ROUND
unfoldable pub round : List ℕ → List ℕ → List ℕ → List ℕ
unfolding mix_at
round m s v0 =
    let v1 = mix_at m s 0 0 4 8 12 v0 in
    let v2 = mix_at m s 1 1 5 9 13 v1 in
    let v3 = mix_at m s 2 2 6 10 14 v2 in
    let v4 = mix_at m s 3 3 7 11 15 v3 in
    let v5 = mix_at m s 4 0 5 10 15 v4 in
    let v6 = mix_at m s 5 1 6 11 12 v5 in
    let v7 = mix_at m s 6 2 7 8 13 v6 in mix_at m s 7 3 4 9 14 v7

unfoldable pub rounds : List ℕ → List (List ℕ) → List ℕ → List ℕ
unfolding round
rounds m [] v = v
rounds m (s ∷ rows) v = rounds m rows (round m s v)

-- `count` words from the word `i` of a block on.
unfoldable pub load_words : ℕ → ℕ → Bytes → List ℕ
unfolding load64
load_words zero i block = []
load_words (suc count) i block = load64 block (i * 8) ∷ load_words count (i + 1) block

unfoldable pub xor_words : List ℕ → List ℕ → List ℕ
xor_words [] ys = []
xor_words (x ∷ xs) [] = x ∷ xs
xor_words (x ∷ xs) (y ∷ ys) = bit_xor x y ∷ xor_words xs ys

unfoldable pub blake2b_compress : State → Bytes → State
unfolding blake2b_iv blake2b_sigma rounds load_words xor_words word
blake2b_compress s block =
    let m = load_words 16 0 block in
    let v =
      take 8 s.h
      ++ (take 4 blake2b_iv
          ++ (bit_xor (word blake2b_iv 4) s.t0
              ∷ bit_xor (word blake2b_iv 5) s.t1
              ∷ bit_xor (word blake2b_iv 6) s.f0
              ∷ bit_xor (word blake2b_iv 7) s.f1
              ∷ [])) in
    let v' = rounds m blake2b_sigma v in
    record s { h = xor_words (xor_words s.h (take 8 v')) (drop 8 v') }

-- S->t[0] += inc; S->t[1] += (S->t[0] < inc);
unfoldable pub blake2b_increment_counter : State → ℕ → State
blake2b_increment_counter s inc =
    let t0 = u64 (s.t0 + inc) in
    record s { t0 = t0; t1 = u64 (s.t1 + (if ltb t0 inc then 1 else 0)) }
