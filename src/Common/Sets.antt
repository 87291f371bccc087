-- ===== src/Common/Sets.antt =====
-- Byte strings as keys: a test of equality, membership in a list, and lists without repetition.
use mathlib.Core.Path.{◌≡◌, refl, sym, ap, ◌∙◌}
use mathlib.Core.Logic.{◌≢◌, ◌↔◌, inl, inr}
use mathlib.Core.Bool.{Bool, true, false, ◌||◌}
use mathlib.Core.List.{List, [], ◌∷◌}
use native.Mathlib.Omega.{arith}
use security_core.Common.Tests.{Bool-cases}
use security_core.Common.Lists.{Bytes, bytes_eq, All}

pub bytes_eq_refl : (xs : Bytes) → bytes_eq xs xs ≡ true
bytes_eq_refl [] = refl
bytes_eq_refl (x ∷ xs) = ground (arith, bytes_eq_refl xs)

pub bytes_eq-eq : (xs ys : Bytes) → bytes_eq xs ys ≡ true → xs ≡ ys
bytes_eq-eq [] [] h = refl
bytes_eq-eq [] (y ∷ ys) h = cc
bytes_eq-eq (x ∷ xs) [] h = cc
bytes_eq-eq (x ∷ xs) (y ∷ ys) h = ground (arith, bytes_eq-eq xs ys)

pub ne→bytes_eq : (xs ys : Bytes) → xs ≢ ys → bytes_eq xs ys ≡ false
ne→bytes_eq xs ys h = elim (Bool-cases (bytes_eq xs ys)) [
  | inl e ↦ absurd (h (bytes_eq-eq xs ys e))
  | inr e ↦ e
]

abbrev pub contains : List Bytes → Bytes → Bool
contains [] key = false
contains (x ∷ xs) key = bytes_eq x key || contains xs key

-- No member is the key.
abbrev pub IsFresh : Bytes → List Bytes → Type 0
IsFresh key = All (λ x. x ≢ key)

pub contains_iff : (xs : List Bytes) (key : Bytes) → (contains xs key ≡ false) ↔ IsFresh key xs
contains_iff [] key = ((λ e. tt), (λ e. refl))
contains_iff (x ∷ xs) key = (
  (λ e. (
    (λ same.
        let hit : bytes_eq x key ≡ true = ap (bytes_eq x) (sym same) ∙ bytes_eq_refl x in
        ground arith),
    (contains_iff xs key).0 (ground arith),
  )),
  (λ e. rw (ne→bytes_eq x key e.0) ((contains_iff xs key).1 e.1)),
)

abbrev pub Distinct : List Bytes → Type 0
Distinct [] = Unit {0}
Distinct (x ∷ xs) = IsFresh x xs × Distinct xs
