-- ===== src/Common/Bits.antt =====
-- Facts about the native bit operations: tables over a small range, and masks of low bits at
-- every width.
use Prim.Native.Nat.{
  ℕ, zero, suc, ◌+◌, ◌-◌, ◌*◌, ◌/◌, ◌%◌, ◌^◌, ◌≤◌, ◌<◌, min, max, bit_and, bit_or, digits,
  bit_and-bitwise, bit_or-bitwise,
}
use mathlib.Core.Path.{◌≡◌, refl, ap, sym, ◌∙◌}
use mathlib.Core.Bool.{Bool, true, ◌&&◌}
use native.Mathlib.Nat.{pow-suc, one-le-pow}
use mathlib.Core.Logic.{inl, inr}
use native.Mathlib.Omega.{arith}
use security_core.Common.Tests.{lt_or_le}

-- A test holds at every number below `n`.
unfoldable pub holds_below : ℕ → (ℕ → Bool) → Bool
holds_below zero p = true
holds_below (suc n) p = p n && holds_below n p

pub holds_below_at : (n : ℕ) (p : ℕ → Bool) → holds_below n p ≡ true → (x : ℕ) → x < n → p x ≡ true
unfolding holds_below
holds_below_at zero p h x lt = absurd (omega arith)
holds_below_at (suc n) p h x lt = ground (arith, holds_below_at n p (ground arith) x)

-- The recursion that the bit operations stand for, on the binary digits of its first operand.
module _ (z : ℕ → ℕ) (f : ℕ → ℕ → ℕ) where
  one_round : (n a b : ℕ) → a ≤ n → digits z f (suc n) a b ≡ digits z f n a b
  one_round zero zero b h = refl
  one_round zero (suc a) b h = absurd (omega arith)
  one_round (suc n) zero b h = refl
  one_round (suc n) (suc a) b h =
      ap (λ (t : ℕ). t * 2 + f (suc a % 2) (b % 2)) (one_round n (suc a / 2) (b / 2) (omega arith))

  -- The rounds beyond `m` change nothing.
  rounds_enough : (n m a b : ℕ) → a ≤ m → m ≤ n → digits z f n a b ≡ digits z f m a b
  rounds_enough zero m a b low high = let e : m ≡ 0 = omega arith in rw e
  rounds_enough (suc n) m a b low high = elim (lt_or_le n m) [
    | inl equal ↦ let e : m ≡ suc n = omega arith in rw e
    | inr more ↦ one_round n a b (omega arith) ∙ rounds_enough n m a b low more
  ]

  lowest_digit :
      (a b : ℕ)
      → digits z f (suc a) (suc a) b
        ≡ digits z f (suc a / 2) (suc a / 2) (b / 2) * 2 + f (suc a % 2) (b % 2)
  lowest_digit a b =
      ap (λ (t : ℕ). t * 2 + f (suc a % 2) (b % 2))
        (rounds_enough a (suc a / 2) (suc a / 2) (b / 2) (omega arith) (omega arith))

-- The lowest digit of a conjunction.
pub bit_and-digit : (a b : ℕ) → bit_and a b ≡ bit_and (a / 2) (b / 2) * 2 + min (a % 2) (b % 2)
bit_and-digit zero b = omega (arith, bit_and-bitwise 0 b, bit_and-bitwise 0 (b / 2))
bit_and-digit (suc a) b =
    bit_and-bitwise (suc a) b
    ∙ lowest_digit (λ y. zero) min a b
    ∙ ap (λ (t : ℕ). t * 2 + min (suc a % 2) (b % 2)) (sym (bit_and-bitwise (suc a / 2) (b / 2)))

digits-zero : (n a : ℕ) → digits (λ y. zero) min n a 0 ≡ 0
digits-zero zero a = refl
digits-zero (suc n) zero = refl
digits-zero (suc n) (suc a) = omega (arith, digits-zero n (suc a / 2))

pub bit_and-zero : (a : ℕ) → bit_and a 0 ≡ 0
bit_and-zero a = bit_and-bitwise a 0 ∙ digits-zero a a

-- Below a number `q * 2 ^ k + r` stand the `k` low bits `r`.
bit_and_low : (k q r : ℕ) → r < 2 ^ k → bit_and (q * 2 ^ k + r) (2 ^ k - 1) ≡ r
bit_and_low zero q r h = omega (arith, bit_and-zero (q * 2 ^ 0 + r))
bit_and_low (suc k) q r h = ground (
  arith,
  pow-suc 2 k,
  one-le-pow k 2,
  doubled,
  bit_and-digit (q * 2 ^ suc k + r) (2 ^ suc k - 1),
  bit_and_low k q (r / 2) (omega (arith, pow-suc 2 k)),
)
  where
    doubled : q * 2 ^ suc k ≡ q * 2 ^ k * 2
    doubled = omega (arith, ap (λ (t : ℕ). q * t) (pow-suc 2 k))

-- `a & ((1 << k) - 1)` is the remainder by `2 ^ k`.
pub bit_and-mask : (k a : ℕ) → bit_and a (2 ^ k - 1) ≡ a % 2 ^ k
bit_and-mask k a = ground (arith, one-le-pow k 2, bit_and_low k (a / 2 ^ k) (a % 2 ^ k))

-- The lowest digit of a disjunction.
pub bit_or-digit : (a b : ℕ) → bit_or a b ≡ bit_or (a / 2) (b / 2) * 2 + max (a % 2) (b % 2)
bit_or-digit zero b = omega (arith, bit_or-bitwise 0 b, bit_or-bitwise 0 (b / 2))
bit_or-digit (suc a) b =
    bit_or-bitwise (suc a) b
    ∙ lowest_digit (λ y. y) max a b
    ∙ ap (λ (t : ℕ). t * 2 + max (suc a % 2) (b % 2)) (sym (bit_or-bitwise (suc a / 2) (b / 2)))

-- `low | (high << k)` is a sum if `low` fits `k` bits.
pub bit_or-shifted : (k low high : ℕ) → low < 2 ^ k → bit_or low (high * 2 ^ k) ≡ low + high * 2 ^ k
bit_or-shifted zero low high h =
    let e : low ≡ 0 = omega arith in rw e (bit_or-bitwise 0 (high * 2 ^ 0) ∙ omega arith)
bit_or-shifted (suc k) low high h = ground (
  arith,
  doubled,
  bit_or-digit low (high * 2 ^ suc k),
  bit_or-shifted k (low / 2) high (omega (arith, pow-suc 2 k)),
)
  where
    doubled : high * 2 ^ suc k ≡ high * 2 ^ k * 2
    doubled = omega (arith, ap (λ (t : ℕ). high * t) (pow-suc 2 k))
