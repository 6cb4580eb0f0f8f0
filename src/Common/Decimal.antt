-- ===== src/Common/Decimal.antt =====
-- Numbers written with `%u`.
use Prim.Native.Nat.{ℕ, zero, suc, ◌+◌, ◌/◌, ◌%◌}
use mathlib.Core.List.{[], ◌∷◌, ◌++◌}
use dir842v2_gpl.Common.Tests.{ltb, if◌then◌else◌}
use dir842v2_gpl.Common.Text.{Bytes}

-- At most so many digits.
unfoldable pub decimal_within : ℕ → ℕ → Bytes
decimal_within zero n = []
decimal_within (suc fuel) n =
    let high = decimal_within fuel (n / 10) in
    if ltb n 10 then (b'0' + n) ∷ [] else high ++ ((b'0' + n % 10) ∷ [])

unfoldable pub decimal : ℕ → Bytes
decimal n = decimal_within (suc n) n
