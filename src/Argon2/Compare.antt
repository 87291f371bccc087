-- ===== src/Argon2/Compare.antt =====
-- The comparison of tags in Sources/CArgon2/argon2.c.
mod Tests
use security_core.Common.{
  ℕ, zero, suc, ◌-◌, ◌≡◌, ◌<◌, ◌∙◌, refl, ap, ap₂, ◌↔◌, Bool, true, false, ◌&&◌, [], ◌∷◌, Bytes,
  length, AreBytes, ltb, ◌==◌, if◌then◌else◌, arith, bit_and, bit_or, bit_xor, u8, sub32, ◌>>>◌,
}
use security_core.Common.Bits.{holds_below, holds_below_at}

-- `d |= b1[i] ^ b2[i]` for each index.
pub differences : ℕ → Bytes → Bytes → ℕ
differences d [] b2 = d
differences d (x ∷ b1) [] = d
differences d (x ∷ b1) (y ∷ b2) = differences (u8 (bit_or d (bit_xor x y))) b1 b2

-- The arrays have `len` bytes each. The shift of a negative `int` copies the sign; the one bit that
-- is kept is the same in a logical shift. The result is an `int` of 32 bits.
pub argon2_compare : Bytes → Bytes → ℕ
argon2_compare b1 b2 = let d = differences 0 b1 b2 in sub32 (bit_and 1 (sub32 d 1 >>> 8)) 1

abbrev same : Bool → Bool → Bool
same true b = b
same false true = false
same false false = true

-- Which bytes a disjunction and a difference of two bytes give.
abbrev or_row : ℕ → ℕ → Bool
or_row a b = ltb (bit_or a b) 256 && same (bit_or a b == 0) ((a == 0) && (b == 0))

or_table : holds_below 256 (λ a. holds_below 256 (or_row a)) ≡ true
unfolding holds_below
or_table = refl

abbrev xor_row : ℕ → ℕ → Bool
xor_row a b = ltb (bit_xor a b) 256 && same (bit_xor a b == 0) (a == b)

xor_table : holds_below 256 (λ a. holds_below 256 (xor_row a)) ≡ true
unfolding holds_below
xor_table = refl

result_table :
    holds_below 256 (λ d. same (sub32 (bit_and 1 (sub32 d 1 >>> 8)) 1 == 0) (d == 0)) ≡ true
unfolding holds_below
result_table = refl

row_of :
    (p : ℕ → ℕ → Bool)
    → holds_below 256 (λ a. holds_below 256 (p a)) ≡ true
    → (a b : ℕ) → a < 256
    → b < 256
    → p a b ≡ true
row_of p table a b ha hb =
    holds_below_at 256 (p a) (holds_below_at 256 (λ a. holds_below 256 (p a)) table a ha) b hb

bit_or-zero_iff :
    (a b : ℕ) → a < 256 → b < 256 → (bit_or a b < 256) × ((bit_or a b ≡ 0) ↔ ((a ≡ 0) × (b ≡ 0)))
bit_or-zero_iff a b ha hb = let row = row_of or_row or_table a b ha hb in ground arith

bit_xor-zero_iff :
    (a b : ℕ) → a < 256 → b < 256 → (bit_xor a b < 256) × ((bit_xor a b ≡ 0) ↔ (a ≡ b))
bit_xor-zero_iff a b ha hb = let row = row_of xor_row xor_table a b ha hb in ground arith

-- One round: the accumulator stays a byte, and is 0 only if it was and the bytes are equal.
accumulate_iff :
    (d x y : ℕ)
    → d < 256
    → x < 256
    → y < 256
    → let e = u8 (bit_or d (bit_xor x y)) in (e < 256) × ((e ≡ 0) ↔ ((d ≡ 0) × (x ≡ y)))
accumulate_iff d x y hd hx hy =
    let (small, xor) = bit_xor-zero_iff x y hx hy in
    let (byte, or) = bit_or-zero_iff d (bit_xor x y) hd small in
    let narrow : u8 (bit_or d (bit_xor x y)) ≡ bit_or d (bit_xor x y) = omega arith in
    rw narrow (byte, ((λ e. ((or.0 e).0, xor.0 (or.0 e).1)), (λ e. or.1 (e.0, xor.1 e.1))))

differences_iff :
    (d : ℕ) (b1 b2 : Bytes)
    → d < 256
    → AreBytes b1
    → AreBytes b2
    → length b1 ≡ length b2
    → (differences d b1 b2 < 256) × ((differences d b1 b2 ≡ 0) ↔ ((d ≡ 0) × (b1 ≡ b2)))
unfolding differences
differences_iff d [] [] hd h1 h2 len = (hd, ((λ e. (e, refl)), (λ e. e.0)))
differences_iff d [] (y ∷ b2) hd h1 h2 len = absurd (omega arith)
differences_iff d (x ∷ b1) [] hd h1 h2 len = absurd (omega arith)
differences_iff d (x ∷ b1) (y ∷ b2) hd (hx, h1) (hy, h2) len =
    let (byte, first) = accumulate_iff d x y hd hx hy in
    let (small, rest) =
      differences_iff (u8 (bit_or d (bit_xor x y))) b1 b2 byte h1 h2 (omega arith) in
    (
      small,
      (
        (λ e. ((first.0 (rest.0 e).0).0, ap₂ (λ h t. h ∷ t) (first.0 (rest.0 e).0).1 (rest.0 e).1)),
        (λ e. rest.1 (first.1 (e.0, cc (e.1)), cc (e.1))),
      ),
    )

-- On byte arrays of one length `argon2_compare` answers 0 exactly if they are equal.
pub argon2_compare_iff :
    (b1 b2 : Bytes)
    → AreBytes b1
    → AreBytes b2
    → length b1 ≡ length b2
    → (argon2_compare b1 b2 ≡ 0) ↔ (b1 ≡ b2)
unfolding argon2_compare
argon2_compare_iff b1 b2 h1 h2 len =
    let (small, zero_iff) = differences_iff 0 b1 b2 (omega arith) h1 h2 len in
    let row =
      holds_below_at 256 (λ d. same (sub32 (bit_and 1 (sub32 d 1 >>> 8)) 1 == 0) (d == 0))
        result_table (differences 0 b1 b2) small in
    let result : (sub32 (bit_and 1 (sub32 (differences 0 b1 b2) 1 >>> 8)) 1 ≡ 0)
        ↔ (differences 0 b1 b2 ≡ 0) =
      ground arith in
    ((λ e. (zero_iff.0 (result.0 e)).1), (λ e. result.1 (zero_iff.1 (refl, e))))
