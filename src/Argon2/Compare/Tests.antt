-- ===== src/Argon2/Compare/Tests.antt =====
-- Two tags of three bytes.
use security_core.Common.{◌≡◌, refl, ◌↔◌, Bytes, [], ◌∷◌, are_bytes-AreBytes}
use security_core.Argon2.Compare.{differences, argon2_compare, argon2_compare_iff}

abbrev left : Bytes
left = 1 ∷ 200 ∷ 3 ∷ []

abbrev right : Bytes
right = 1 ∷ 201 ∷ 3 ∷ []

argon2_compare_iff_example : (argon2_compare left right ≡ 0) ↔ (left ≡ right)
argon2_compare_iff_example =
    argon2_compare_iff left right (are_bytes-AreBytes left refl) (are_bytes-AreBytes right refl)
      refl

-- The result -1.
different : argon2_compare left right ≡ 0xffff_ffff
unfolding argon2_compare differences
different = refl
