-- ===== src/Argon2/Base64/Tests.antt =====
-- The encoding and decoding of a word, and of one byte too many.
use security_core.Common.{
  ◌≡◌, refl, ◌⊎◌, ◌≤◌, ◌<◌, arith, none, some, ◌++◌, length, codes, AreBytes, are_bytes-AreBytes,
}
use security_core.Argon2.Base64.{to_base64, from_base64, b64len, b64_char_to_byte, char_to_int}
use security_core.Argon2.Base64.Chars.{symbol, b64_char_to_byte_high, dollar_is_no_base64}
use security_core.Argon2.Base64.Encode.{base64, to_base64-base64}
use security_core.Argon2.Base64.Decode.{Stops, from_base64-base64, from_base64_full}

salt_bytes : AreBytes (codes "somesalt")
salt_bytes = are_bytes-AreBytes (codes "somesalt") refl

base64_test : base64 (codes "somesalt") ≡ codes "c29tZXNhbHQ"
unfolding base64 symbol
base64_test = refl

to_base64-base64_example :
    ((length (base64 (codes "somesalt")) < 20)
      × (to_base64 20 (codes "somesalt") ≡ some (base64 (codes "somesalt"), b64len 8)))
    ⊎ ((20 ≤ length (base64 (codes "somesalt"))) × (to_base64 20 (codes "somesalt") ≡ none))
to_base64-base64_example = to_base64-base64 20 (codes "somesalt") salt_bytes

dollar-Stops : Stops (codes "$x")
dollar-Stops = dollar_is_no_base64

from_base64-base64_example :
    from_base64 8 (base64 (codes "somesalt") ++ codes "$x") ≡ some (codes "somesalt", codes "$x")
from_base64-base64_example =
    from_base64-base64 8 (codes "somesalt") (codes "$x") salt_bytes dollar-Stops (omega arith)

from_base64_full_example : from_base64 7 (base64 (codes "somesalt") ++ codes "$x") ≡ none
from_base64_full_example =
    from_base64_full 7 (codes "somesalt") (codes "$x") salt_bytes (omega arith)

b64_char_to_byte_high_example : b64_char_to_byte (char_to_int 0xc3) ≡ 63
b64_char_to_byte_high_example = b64_char_to_byte_high 0xc3 (omega arith) (omega arith)
