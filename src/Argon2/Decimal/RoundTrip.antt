-- ===== src/Argon2/Decimal/RoundTrip.antt =====
-- `decode_decimal` and `numlen` of Sources/CArgon2/encoding.c on printed numbers.
use security_core.Common.{
  ℕ, zero, suc, ◌+◌, ◌*◌, ◌/◌, ◌%◌, ◌^◌, ◌≤◌, ◌<◌, ◌≡◌, refl, ap, ◌∙◌, ◌≢◌, ◌⊎◌, inl, inr, true,
  some, [], ◌∷◌, ◌++◌, append_assoc, Bytes, length, length-append, arith, lt_or_le,
}
use security_core.Argon2.Decimal.{
  is_no_digit, decimal_loop, check_minimal, decode_decimal, numlen_loop, numlen, digits,
  print_ulong,
}

-- The input ends, or goes on with a character that is no digit.
abbrev pub EndsNumber : Bytes → Type 0
EndsNumber [] = Unit {0}
EndsNumber (c ∷ rest) = is_no_digit c ≡ true

decimal_loop-digit :
    (d acc : ℕ) (s : Bytes)
    → d < 10
    → acc * 10 + d < 2 ^ 64
    → decimal_loop ((b'0' + d) ∷ s) acc ≡ decimal_loop s (acc * 10 + d)
unfolding decimal_loop
decimal_loop-digit d acc s hd h = ground arith

decimal_loop-end :
    (rest : Bytes) (acc : ℕ) → EndsNumber rest → decimal_loop rest acc ≡ some (acc, rest)
unfolding decimal_loop
decimal_loop-end [] acc h = refl
decimal_loop-end (c ∷ rest) acc h = rw h

decimal_loop-digits :
    (fuel n : ℕ) (s : Bytes)
    → n < 10 ^ fuel
    → n < 2 ^ 64
    → decimal_loop (digits fuel n ++ s) 0 ≡ decimal_loop s n
unfolding digits
decimal_loop-digits zero n s h fits = let e : n ≡ 0 = omega arith in rw e
decimal_loop-digits (suc fuel) n s h fits = ground (
  arith,
  decimal_loop-digit n 0 s,
  decimal_loop-digit (n % 10) (n / 10) s,
  decimal_loop-digits fuel (n / 10) ((b'0' + n % 10) ∷ s),
  append_assoc (digits fuel (n / 10)) ((b'0' + n % 10) ∷ []) s,
)

-- A positive number is printed with no zero in front.
digits_head :
    (fuel n : ℕ)
    → 0 < n
    → n < 10 ^ suc fuel
    → (c : ℕ) × (t : Bytes) × (digits (suc fuel) n ≡ c ∷ t) × (b'1' ≤ c)
unfolding digits
digits_head zero n pos h = (b'0' + n, [], ground arith, omega arith)
digits_head (suc fuel) n pos h = elim (lt_or_le n 10) [
  | inl small ↦ (b'0' + n, [], ground arith, omega arith)
  | inr large ↦
      let (c, t, e, p) = digits_head fuel (n / 10) (omega arith) (omega arith) in
      (c, t ++ ((b'0' + n % 10) ∷ []), ground arith, p)
]

-- A text that is one character, or does not begin with 0, is minimal.
decode_minimal :
    (p : Bytes) (c v : ℕ) (t rest : Bytes)
    → p ≡ c ∷ t
    → (c ≢ b'0') ⊎ (t ≡ [])
    → decimal_loop (p ++ rest) 0 ≡ some (v, rest)
    → decode_decimal (p ++ rest) ≡ some (v, rest)
unfolding decode_decimal check_minimal
decode_minimal p c v t rest ep (inl h) e = rw e (rw ep (ground (arith, length-append t rest)))
decode_minimal p c v t rest ep (inr h) e =
    rw e (rw ep (ground (arith, length-append t rest, ap length h)))

print_ulong-zero : print_ulong 0 ≡ b'0' ∷ []
unfolding print_ulong digits
print_ulong-zero = refl

print_ulong_head :
    (n : ℕ) → 0 < n → n < 2 ^ 64 → (c : ℕ) × (t : Bytes) × (print_ulong n ≡ c ∷ t) × (b'1' ≤ c)
unfolding print_ulong
print_ulong_head n pos h = digits_head 19 n pos (omega arith)

print_loop :
    (n : ℕ) (rest : Bytes)
    → n < 2 ^ 64
    → EndsNumber rest
    → decimal_loop (print_ulong n ++ rest) 0 ≡ some (n, rest)
unfolding print_ulong
print_loop n rest fits h =
    decimal_loop-digits 20 n rest (omega arith) fits ∙ decimal_loop-end rest n h

-- `decode_decimal` reads back every `unsigned long` that `sprintf` printed, and leaves the input
-- from the first character that is no digit.
pub decode_decimal-print_ulong :
    (n : ℕ) (rest : Bytes)
    → n < 2 ^ 64
    → EndsNumber rest
    → decode_decimal (print_ulong n ++ rest) ≡ some (n, rest)
decode_decimal-print_ulong zero rest fits h =
    decode_minimal _ b'0' 0 [] rest print_ulong-zero (inr refl) (print_loop 0 rest fits h)
decode_decimal-print_ulong (suc n) rest fits h =
    let (c, t, e, p) = print_ulong_head (suc n) (omega arith) fits in
    decode_minimal _ c (suc n) t rest e (inl (omega arith)) (print_loop (suc n) rest fits h)

numlen_loop-digits :
    (fuel k n len : ℕ)
    → n < 10 ^ suc fuel
    → fuel ≤ k
    → numlen_loop fuel n len + 1 ≡ len + length (digits (suc k) n)
unfolding numlen_loop digits
numlen_loop-digits zero k n len h le = ground arith
numlen_loop-digits (suc fuel) zero n len h le = absurd (omega arith)
numlen_loop-digits (suc fuel) (suc k) n len h le = ground (
  arith,
  numlen_loop-digits fuel k (n / 10) (len + 1),
  length-append (digits (suc k) (n / 10)) ((b'0' + n % 10) ∷ []),
)

-- `numlen` is the number of characters that `sprintf` prints, for every `uint32_t`; so its loop
-- ends within ten rounds.
pub numlen-print_ulong : (n : ℕ) → n < 2 ^ 32 → numlen n ≡ length (print_ulong n)
unfolding numlen print_ulong
numlen-print_ulong n h = omega (arith, numlen_loop-digits 10 19 n 1 (omega arith) (omega arith))
