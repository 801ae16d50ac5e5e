-- ===== src/Prelude/Decimal.antt =====
-- `strconv.AppendInt` and `strconv.FormatUint` of a number that is not negative, in base ten.
use Prim.Native.Nat.{ℕ, zero, suc, ◌+◌, ◌/◌, ◌%◌, ◌≤◌}
use mathlib.Core.Path.{◌≡◌, refl}
use mathlib.Core.Bool.{true, false}
use mathlib.Core.List.{[], ◌∷◌}
use native.Mathlib.Omega.{arith}
use pikawire.Prelude.Lists.{Bytes, codes}
use pikawire.Prelude.Tests.{ltb}

-- The digits of `n` in front of `out`. Each round divides by ten, so `n` rounds are enough.
unfoldable pub digits : ℕ → ℕ → Bytes → Bytes
digits zero n out = (b'0' + n % 10) ∷ out
digits (suc f) n out = elim (ltb n 10) [
  | true ↦ (b'0' + n) ∷ out
  | false ↦ digits f (n / 10) ((b'0' + n % 10) ∷ out)
]

unfoldable pub format : ℕ → Bytes
unfolding digits
format n = digits n n []

-- The text begins with a digit.
abbrev pub StartsWithDigit : Bytes → Type 0
StartsWithDigit [] = ⊥
StartsWithDigit (c ∷ s) = (b'0' ≤ c) × (c ≤ b'9')

pub digits-StartsWithDigit : (f n : ℕ) (out : Bytes) → StartsWithDigit (digits f n out)
unfolding digits
digits-StartsWithDigit zero n out = omega arith
digits-StartsWithDigit (suc f) n out =
    ground (arith, digits-StartsWithDigit f (n / 10) ((b'0' + n % 10) ∷ out))

format_runs : format 1234 ≡ codes "1234"
unfolding format
format_runs = refl

format_zero : format 0 ≡ codes "0"
unfolding format
format_zero = refl
