-- ===== src/Common/Results.antt =====
-- A result is a value or an error of the component's own error type.
use mathlib.Core.Path.{◌≡◌, refl}
use mathlib.Core.Logic.{◌↔◌}
use mathlib.Core.Bool.{Bool, true, false}

pub data Result {ℓ κ} (E : Type κ) (A : Type ℓ) : Type (ℓ ⊔ κ) where
  ok : A → Result E A
  err : E → Result E A

infixl 5 ◌>>=◌ ◌>>◌
abbrev pub ◌>>=◌ {ℓ κ μ} :
    {E : Type μ} {A : Type ℓ} {B : Type κ} → Result E A → (A → Result E B) → Result E B
(ok x) >>= next = next x
(err code) >>= next = err code

abbrev pub ◌>>◌ {κ μ} : {E : Type μ} {B : Type κ} → Result E (Unit {0}) → Result E B → Result E B
first >> next = first >>= λ done. next

-- `guard test else throw e`.
abbrev pub guard {μ} : {E : Type μ} → Bool → E → Result E (Unit {0})
guard true e = ok tt
guard false e = err e

-- Both parts of a chain that succeeds have succeeded.
pub >>=-eq-ok {ℓ κ μ} :
    {E : Type μ} {A : Type ℓ} {B : Type κ} (r : Result E A) (next : A → Result E B) {y : B}
    → (r >>= next) ≡ ok y
    → (x : A) × (r ≡ ok x) × (next x ≡ ok y)
>>=-eq-ok (ok x) next e = (x, refl, e)
>>=-eq-ok (err code) next e = cc

-- The same for a goal that is proved from the parts.
pub >>=-elim {ℓ κ μ ν} :
    {E : Type μ} {A : Type ℓ} {B : Type κ} {C : Type ν} {next : A → Result E B} {y : B}
    (r : Result E A)
    → (r >>= next) ≡ ok y
    → ((x : A) → r ≡ ok x → next x ≡ ok y → C)
    → C
>>=-elim (ok x) h goal = goal x refl h
>>=-elim (err code) h goal = cc

pub guard-eq-ok {ℓ μ} :
    {E : Type μ} {A : Type ℓ} (b : Bool) (e : E) (next : Result E A) {y : A}
    → (guard b e >> next) ≡ ok y
    → (b ≡ true) × (next ≡ ok y)
guard-eq-ok true e next h = (refl, h)
guard-eq-ok false e next h = cc

-- A chain of tests succeeds if each does.
pub >>_iff {μ} :
    {E : Type μ} (r next : Result E (Unit {0}))
    → ((r >> next) ≡ ok tt) ↔ ((r ≡ ok tt) × (next ≡ ok tt))
>>_iff (ok x) next = ((λ h. (refl, h)), (λ h. h.1))
>>_iff (err e) next = ((λ h. cc), (λ h. cc))

pub guard_iff {μ} : {E : Type μ} (b : Bool) (e : E) → (guard b e ≡ ok tt) ↔ (b ≡ true)
guard_iff true e = ((λ h. refl), (λ h. refl))
guard_iff false e = ((λ h. cc), (λ h. cc))
