-- ===== src/Argon2/Decimal/Tests.antt =====
-- Numbers of a hash string.
use security_core.Common.{◌≡◌, refl, arith, none, some, ◌++◌, codes}
use security_core.Argon2.Decimal.{decode_decimal, print_ulong, decimal_loop, check_minimal}
use security_core.Argon2.Decimal.RoundTrip.{EndsNumber, decode_decimal-print_ulong}

comma-EndsNumber : EndsNumber (codes ",t=3")
comma-EndsNumber = refl

decode_decimal-print_ulong_example :
    decode_decimal (print_ulong 65536 ++ codes ",t=3") ≡ some (65536, codes ",t=3")
decode_decimal-print_ulong_example =
    decode_decimal-print_ulong 65536 (codes ",t=3") (omega arith) comma-EndsNumber

-- A leading zero, and a number of 2^64.
leading_zero : decode_decimal (codes "010") ≡ none
unfolding decode_decimal decimal_loop check_minimal
leading_zero = refl

too_large : decode_decimal (codes "18446744073709551616") ≡ none
unfolding decode_decimal decimal_loop check_minimal
too_large = refl
