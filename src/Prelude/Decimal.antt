-- ===== src/Prelude/Decimal.antt =====
-- Numbers as `printf` prints them: `%zu` and `%d`.
use Prim.Native.Nat.{ℕ, zero, suc, ◌+◌, ◌/◌, ◌%◌}
use mathlib.Core.List.{[], ◌∷◌, ◌++◌}
use fman.Prelude.Tests.{ltb, if◌then◌else◌}
use fman.Prelude.Words.{Text}
use fman.Prelude.Int.{ℤ, pos, negsuc}

-- The last digit behind the digits of the tenth.
unfoldable pub digits_within : ℕ → ℕ → Text
digits_within zero n = []
digits_within (suc fuel) n =
    let front = digits_within fuel (n / 10) in
    (if ltb n 10 then [] else front) ++ (b'0' + n % 10) ∷ []

-- A number has at most as many digits as itself and one.
unfoldable pub decimal : ℕ → Text
unfolding digits_within
decimal n = digits_within (suc n) n

unfoldable pub decimal_int : ℤ → Text
unfolding decimal
decimal_int (pos n) = decimal n
decimal_int (negsuc n) = b'-' ∷ decimal (suc n)
