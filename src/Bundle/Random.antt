-- ===== src/Bundle/Random.antt =====
-- Sources/UltraLockedFormat/Random.swift. `SecRandomCopyBytes` is a parameter: what it does at each
-- of its calls, which are numbered in their order, for a number of bytes; `none` is a failure.
use security_core.Common.{ℕ, Option, none, some, Bytes, length, ◌≡◌, Result, ok, err}
use security_core.Bundle.Failure.{Failure, trapped}

abbrev pub RandomSource : Type 0
RandomSource = ℕ → ℕ → Option Bytes

-- Each call succeeds and fills the buffer.
abbrev pub IsWorking : RandomSource → Type 0
IsWorking source =
    (call count : ℕ) → (bytes : Bytes) × (source call count ≡ some bytes) × (length bytes ≡ count)

abbrev or_trap : Option Bytes → Result Failure Bytes
or_trap none = err trapped
or_trap (some bytes) = ok bytes

unfoldable pub random_bytes : RandomSource → ℕ → ℕ → Result Failure Bytes
random_bytes source call count = or_trap (source call count)
