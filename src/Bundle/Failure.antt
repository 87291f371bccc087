-- ===== src/Bundle/Failure.antt =====
-- How a call of Sources/UltraLockedFormat ends without a value: by an error of the package, by an
-- error of another library that is passed on, or by a trap.
use security_core.Common.{◌≡◌, Bool, Result, ok, err, guard}
use security_core.Bundle.Limits.{BundleError}

pub data Failure : Type 0 where
  thrown : BundleError → Failure
  crypto_error encoding_error trapped : Failure

-- `try` of a call that throws a BundleError.
abbrev pub attempt {ℓ} : {A : Type ℓ} → Result BundleError A → Result Failure A
attempt (ok x) = ok x
attempt (err e) = err (thrown e)

-- `precondition`, and the checks that the language makes of its arithmetic.
abbrev pub trap_unless : Bool → Result Failure (Unit {0})
trap_unless test = guard test trapped

pub attempt-eq-ok {ℓ} :
    {A : Type ℓ} (r : Result BundleError A) {x : A} → attempt r ≡ ok x → r ≡ ok x
attempt-eq-ok (ok y) h = cc
attempt-eq-ok (err e) h = cc
