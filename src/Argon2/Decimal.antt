-- ===== src/Argon2/Decimal.antt =====
-- The decimal numbers of Sources/CArgon2/encoding.c: `decode_decimal`, `numlen`, and what
-- `sprintf("%lu")` prints. `unsigned long` has 64 bits.
pub mod RoundTrip
mod Tests
use security_core.Common.{
  ℕ, zero, suc, ◌+◌, ◌-◌, ◌*◌, ◌/◌, ◌%◌, ◌^◌, Bool, false, not, ◌&&◌, ◌||◌, Option, none, some, [],
  ◌∷◌, ◌++◌, Bytes, length, ltb, ◌==◌, if◌then◌else◌, u64,
}

abbrev pub ulong_max : ℕ
ulong_max = 2 ^ 64 - 1

-- `c < '0' || c > '9'`; a negative `char` is below '0', and here it is above '9'.
abbrev pub is_no_digit : ℕ → Bool
is_no_digit c = ltb c b'0' || ltb b'9' c

-- The loop: the value, and the input from the first character that is no digit.
pub decimal_loop : Bytes → ℕ → Option (ℕ × Bytes)
decimal_loop [] acc = some (acc, [])
decimal_loop (c ∷ str) acc =
    let d = c - b'0' in
    let acc' = u64 (acc * 10) in
    if is_no_digit c
    then some (acc, c ∷ str)
    else if ltb (ulong_max / 10) acc
    then none
    else if ltb (ulong_max - acc') d
    then none
    else decimal_loop str (u64 (acc' + d))

abbrev starts_with_zero : Bytes → Bool
starts_with_zero [] = false
starts_with_zero (c ∷ str) = c == b'0'

-- `str == orig || (*orig == '0' && str != orig + 1)`; both are suffixes of one string, so that
-- their lengths tell them apart.
pub check_minimal : Bytes → ℕ × Bytes → Option (ℕ × Bytes)
check_minimal orig (v, str) =
    if (length str == length orig) || (starts_with_zero orig && not (length str + 1 == length orig))
    then none
    else some (v, str)

abbrev check_result : Bytes → Option (ℕ × Bytes) → Option (ℕ × Bytes)
check_result orig none = none
check_result orig (some r) = check_minimal orig r

-- `none` is NULL.
pub decode_decimal : Bytes → Option (ℕ × Bytes)
decode_decimal str = check_result str (decimal_loop str 0)

-- `while (num >= 10)`: a uint32_t has at most ten digits, so ten rounds are enough fuel.
unfoldable pub numlen_loop : ℕ → ℕ → ℕ → ℕ
numlen_loop zero num len = len
numlen_loop (suc fuel) num len =
    let more = numlen_loop fuel (num / 10) (len + 1) in if ltb num 10 then len else more

unfoldable pub numlen : ℕ → ℕ
numlen num = numlen_loop 10 num 1

-- The digits of a number below 10 ^ fuel.
unfoldable pub digits : ℕ → ℕ → Bytes
digits zero n = []
digits (suc fuel) n =
    let front = digits fuel (n / 10) in
    if ltb n 10 then (b'0' + n) ∷ [] else front ++ ((b'0' + n % 10) ∷ [])

-- `sprintf(tmp, "%lu", n)`; 2 ^ 64 has twenty digits.
unfoldable pub print_ulong : ℕ → Bytes
print_ulong n = digits 20 n
