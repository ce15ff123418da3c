-- ===== src/Base/Bytes.antt =====
-- A test of all numbers below a bound, by evaluation.
use Prim.Native.Nat.{ℕ, zero, suc, ◌<◌}
use mathlib.Core.Path.{◌≡◌}
use mathlib.Core.Bool.{Bool, true, false}
use native.Mathlib.Omega.{arith}

-- `test 0`, ..., `test (bound - 1)` are all true.
unfoldable pub passes : (ℕ → Bool) → ℕ → Bool
passes test zero = true
passes test (suc bound) = elim (test bound) [ true ↦ passes test bound | false ↦ false ]

-- What passes is true of each number below the bound.
pub passes_at :
    (test : ℕ → Bool) (bound b : ℕ) → b < bound → passes test bound ≡ true → test b ≡ true
unfolding passes
passes_at test zero b lt all = absurd (omega (arith, lt))
passes_at test (suc bound) b lt all = ground (arith, passes_at test bound b)
