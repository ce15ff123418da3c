-- ===== src/Base/Word.antt =====
-- Machine words: casts to the fixed widths, and `int16_t` as the integer that it stands for.
use Prim.Native.Nat.{ℕ, ◌-◌, ◌%◌, ◌^◌, ◌<◌}
use mathlib.Core.Path.{◌≡◌}
use native.Mathlib.Omega.{arith}
use pi_industrial_robottools.Base.Tests.{ltb, if◌then◌else◌}
use pi_industrial_robottools.Base.Int.{ℤ, pos, negsuc, ◌≤ℤ◌}

abbrev pub u8 : ℕ → ℕ
u8 n = n % 2 ^ 8

abbrev pub u16 : ℕ → ℕ
u16 n = n % 2 ^ 16

abbrev pub u32 : ℕ → ℕ
u32 n = n % 2 ^ 32

-- The 16-bit pattern of an integer: `(uint16_t)z`.
unfoldable pub bits16 : ℤ → ℕ
bits16 (pos n) = n % 65536
bits16 (negsuc n) = 65535 - n % 65536

-- The `int16_t` that a 16-bit pattern stands for.
unfoldable pub signed16 : ℕ → ℤ
signed16 w = if ltb w 32768 then pos w else negsuc (65535 - w)

-- `(int16_t)z`: two's complement wrap-around.
unfoldable pub int16 : ℤ → ℤ
unfolding bits16 signed16
int16 z = signed16 (bits16 z)

abbrev pub IsInt16 : ℤ → Type 0
IsInt16 z = (negsuc 32767 ≤ℤ z) × (z ≤ℤ pos 32767)

abbrev pub IsByte : ℕ → Type 0
IsByte b = b < 256

-- A value that fits is not changed by the cast.
pub int16_fits : (z : ℤ) → negsuc 32767 ≤ℤ z → z ≤ℤ pos 32767 → int16 z ≡ z
unfolding int16
int16_fits (pos n) lo hi = ground arith
int16_fits (negsuc n) lo hi = ground arith

-- The cast always gives an `int16_t`.
pub int16-IsInt16 : (z : ℤ) → IsInt16 (int16 z)
unfolding int16
int16-IsInt16 (pos n) = ground arith
int16-IsInt16 (negsuc n) = ground arith

pub bits16-lt : (z : ℤ) → bits16 z < 65536
unfolding bits16
bits16-lt (pos n) = omega arith
bits16-lt (negsuc n) = omega arith

pub bits16-signed16 : (w : ℕ) → w < 65536 → bits16 (signed16 w) ≡ w
unfolding bits16 signed16
bits16-signed16 w h = ground arith

pub signed16-bits16 : (z : ℤ) → IsInt16 z → signed16 (bits16 z) ≡ z
unfolding bits16 signed16
signed16-bits16 (pos n) h = ground arith
signed16-bits16 (negsuc n) h = ground arith
