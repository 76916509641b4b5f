-- ===== src/Base/Number.antt =====
-- `str(n)` of a number: its decimal digits.
use Prim.Native.Nat.{ℕ, zero, suc, ◌+◌, ◌/◌, ◌%◌}
use mathlib.Core.List.{[], ◌∷◌}
use bo_thesis.Base.Tests.{ltb, if◌then◌else◌}
use bo_thesis.Base.Text.{Str}

-- Each round takes off one digit, so `suc n` rounds are enough for `n`.
decimal_onto : ℕ → ℕ → Str → Str
decimal_onto zero n out = out
decimal_onto (suc rounds) n out =
    let rest = decimal_onto rounds (n / 10) ((48 + n % 10) ∷ out) in
    if ltb n 10 then (48 + n) ∷ out else rest

unfoldable pub decimal : ℕ → Str
unfolding decimal_onto
decimal n = decimal_onto (suc n) n []
