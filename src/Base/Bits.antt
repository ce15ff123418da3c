-- ===== src/Base/Bits.antt =====
-- `(q << k) | r` when `r` fits in `k` bits, at every width: the native `bit_or` is a recursion on
-- binary digits with fuel, so its lowest digit is split off first.
use Prim.Native.Nat.{
  ℕ, zero, suc, ◌+◌, ◌*◌, ◌/◌, ◌%◌, ◌≤◌, ◌<◌, max, bit_or, digits, bit_or-bitwise,
}
use mathlib.Core.Path.{◌≡◌, refl}
use native.Mathlib.Omega.{arith}

or_digits : ℕ → ℕ → ℕ → ℕ
or_digits fuel a b = digits (λ y. y) max fuel a b

or_digits_fuel : (m n a b : ℕ) → a ≤ m → a ≤ n → or_digits m a b ≡ or_digits n a b
unfolding or_digits
or_digits_fuel zero zero a b h k = refl
or_digits_fuel zero (suc n) zero b h k = refl
or_digits_fuel zero (suc n) (suc a) b h k = absurd (omega arith)
or_digits_fuel (suc m) zero zero b h k = refl
or_digits_fuel (suc m) zero (suc a) b h k = absurd (omega arith)
or_digits_fuel (suc m) (suc n) zero b h k = refl
or_digits_fuel (suc m) (suc n) (suc a) b h k =
    omega (arith, or_digits_fuel m n (suc a / 2) (b / 2) (omega arith) (omega arith))

-- The lowest digit of an `|`, and the rest.
bit_or_halves : (a b : ℕ) → bit_or a b ≡ 2 * bit_or (a / 2) (b / 2) + max (a % 2) (b % 2)
unfolding or_digits
bit_or_halves zero b = omega (arith, bit_or-bitwise 0 b, bit_or-bitwise 0 (b / 2))
bit_or_halves (suc a) b = omega (
  arith,
  bit_or-bitwise (suc a) b,
  bit_or-bitwise (suc a / 2) (b / 2),
  or_digits_fuel a (suc a / 2) (suc a / 2) (b / 2) (omega arith) (omega arith),
)

-- `q` shifted left by `k`, one place at a time.
shl : ℕ → ℕ → ℕ
shl zero q = q
shl (suc k) q = 2 * shl k q

bit_or-zero_fuel : (n a : ℕ) → a ≤ n → bit_or a 0 ≡ a
bit_or-zero_fuel zero a h = omega (arith, bit_or-bitwise 0 0, zero_is a h)
  where
    zero_is : (a : ℕ) → a ≤ 0 → bit_or a 0 ≡ a
    zero_is zero h = refl
    zero_is (suc a) h = absurd (omega arith)
bit_or-zero_fuel (suc n) zero h = refl
bit_or-zero_fuel (suc n) (suc a) h =
    omega (arith, bit_or_halves (suc a) 0, bit_or-zero_fuel n (suc a / 2) (omega arith))

bit_or-shl : (k q r : ℕ) → r < shl k 1 → bit_or (shl k q) r ≡ shl k q + r
unfolding shl
bit_or-shl zero q zero h = omega (arith, bit_or-zero_fuel q q (omega arith))
bit_or-shl zero q (suc r) h = absurd (omega arith)
bit_or-shl (suc k) q r h =
    omega
      (arith, bit_or_halves (2 * shl k q) r, halve (shl k q), bit_or-shl k q (r / 2) (omega arith))
  where
    halve : (x : ℕ) → bit_or (2 * x / 2) (r / 2) ≡ bit_or x (r / 2)
    halve x = let e : 2 * x / 2 ≡ x = omega arith in rw e

-- `(hi << 8) | lo` of two bytes.
pub bit_or_bytes : (hi lo : ℕ) → lo < 256 → bit_or (hi * 256) lo ≡ hi * 256 + lo
unfolding shl
bit_or_bytes hi lo h =
    let e : hi * 256 ≡ shl 8 hi = omega arith in rw e (bit_or-shl 8 hi lo (omega arith))

-- `(hi << 4) | lo` of two nibbles.
pub bit_or_nibbles : (hi lo : ℕ) → lo < 16 → bit_or (hi * 16) lo ≡ hi * 16 + lo
unfolding shl
bit_or_nibbles hi lo h =
    let e : hi * 16 ≡ shl 4 hi = omega arith in rw e (bit_or-shl 4 hi lo (omega arith))
