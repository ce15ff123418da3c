-- ===== src/Controller/Servo/Loop.antt =====
-- The control law of the servo: what one tick writes to the H-bridge.
use Prim.Native.Nat.{min}
use pi_industrial_robottools.Base.{
  ℕ, suc, ◌≤◌, ◌+◌, ◌-◌, ◌*◌, ◌≡◌, ◌≢◌, ◌↔◌, ◌⊎◌, ◌==◌, if◌then◌else◌, arith,
}
use pi_industrial_robottools.Base.Int.{
  ℤ, pos, negsuc, ◌≤ℤ◌, neg_ℤ, sub_ℕ, ◌+ℤ◌, ◌-ℤ◌, scale, pos_part, neg_part,
}
use pi_industrial_robottools.Base.Word.{int16, int16_fits}
use pi_industrial_robottools.Controller.Board.{Board, perform_all, Throughout}
use pi_industrial_robottools.Controller.Cut.{cut_parts}
use pi_industrial_robottools.Controller.Servo.{
  Servo, drive, measure, tick, limited_setpoint, read_position, at_least, at_most,
}
use pi_industrial_robottools.Controller.Servo.Bounds.{
  IsBounded, limited_setpoint_within, read_position_eq,
}

-- One side at least is off.
abbrev pub IsSafe : Servo → Board → Type 0
IsSafe s b = (b.analog s.pwml ≡ pos 0) ⊎ (b.analog s.pwmr ≡ pos 0)

-- The duty written to each side is `l` and `r`.
abbrev pub Drives : Servo → Board → ℕ → ℕ → Type 0
Drives s b l r = (b.analog s.pwml ≡ pos l) × (b.analog s.pwmr ≡ pos r)

drive-Drives :
    (e : ℤ) (s : Servo) (b : Board)
    → s.pwml ≢ s.pwmr
    → negsuc 32766 ≤ℤ e
    → Drives s (perform_all b (drive e s)) (min 255 (neg_part e)) (min 255 (pos_part e))
unfolding drive neg_ℤ
drive-Drives (pos n) s b ne lo = ground arith
drive-Drives (negsuc n) s b ne lo =
    ground (arith, int16_fits (pos (suc n)) (omega arith) (omega arith))

-- With two different PWM pins of which one at least is off, a tick of the servo never drives both
-- at once, not even between its two writes.
pub tick-IsSafe_servo :
    (adc : ℕ) (s : Servo) (b : Board)
    → s.pwml ≢ s.pwmr
    → IsSafe s b
    → Throughout (IsSafe s) b (tick adc s).1
unfolding tick drive measure
tick-IsSafe_servo adc s b ne safe = ground arith

read_position_range :
    (adc : ℕ) (s : Servo)
    → adc ≤ 1023
    → (negsuc 511 ≤ℤ read_position adc s) × (read_position adc s ≤ℤ pos 512)
read_position_range adc s h = ground (arith, read_position_eq adc s h)

-- The error is four times the distance from the commanded position, with no wrap-around.
error_exact :
    (p c : ℤ)
    → (negsuc 511 ≤ℤ p) × (p ≤ℤ pos 512)
    → (negsuc 511 ≤ℤ c) × (c ≤ℤ pos 511)
    → int16 (scale 4 (int16 (c -ℤ p))) ≡ scale 4 (c -ℤ p)
unfolding ◌-ℤ◌ scale
error_exact p c hp hc = ground (arith, int16_fits (c -ℤ p), int16_fits (scale 4 (c -ℤ p)))

measure_error :
    (adc : ℕ) (s : Servo)
    → IsBounded s
    → adc ≤ 1023
    → (measure adc s).error ≡ scale 4 (limited_setpoint s -ℤ read_position adc s)
unfolding measure
measure_error adc s v h = ground (
  arith,
  v.clampl_range,
  v.clamph_range,
  limited_setpoint_within s v,
  error_exact (read_position adc s) (limited_setpoint s) (read_position_range adc s h),
)

-- How far `a` lies above `b`, and 0 if it lies below.
abbrev pub above : ℤ → ℤ → ℕ
above a b = pos_part a + neg_part b - (pos_part b + neg_part a)

error_parts :
    (p c : ℤ)
    → (neg_part (scale 4 (c -ℤ p)) ≡ 4 * above p c) × (pos_part (scale 4 (c -ℤ p)) ≡ 4 * above c p)
unfolding scale ◌-ℤ◌
error_parts p c = ground arith

error_lower :
    (p c : ℤ)
    → (negsuc 511 ≤ℤ p) × (p ≤ℤ pos 512)
    → (negsuc 511 ≤ℤ c) × (c ≤ℤ pos 511)
    → negsuc 32766 ≤ℤ scale 4 (c -ℤ p)
unfolding scale ◌-ℤ◌
error_lower p c hp hc = ground arith

drive_parts :
    (e : ℤ) (s : Servo) (b : Board) (l r : ℕ)
    → s.pwml ≢ s.pwmr
    → negsuc 32766 ≤ℤ e
    → neg_part e ≡ l
    → pos_part e ≡ r
    → Drives s (perform_all b (drive e s)) (min 255 l) (min 255 r)
drive_parts e s b l r ne lo el er = rw (← el, ← er) (drive-Drives e s b ne lo)

limited_range :
    (s : Servo) → IsBounded s → (negsuc 511 ≤ℤ limited_setpoint s) × (limited_setpoint s ≤ℤ pos 511)
limited_range s v = omega (arith, v.clampl_range, v.clamph_range, limited_setpoint_within s v)

tick_measured :
    (adc : ℕ) (s : Servo) (b : Board)
    → IsBounded s
    → adc ≤ 1023
    → s.pwml ≢ s.pwmr
    → let p = read_position adc s in
      let c = limited_setpoint s in
      Drives s (perform_all b (tick adc s).1) (min 255 (4 * above p c)) (min 255 (4 * above c p))
unfolding tick
tick_measured adc s b v h ne =
    let p = read_position adc s in
    let c = limited_setpoint s in
    let e = measure_error adc s v h in
    drive_parts (measure adc s).error (measure adc s) b (4 * above p c) (4 * above c p) ne
      (rw e (error_lower p c (read_position_range adc s h) (limited_range s v)))
      (rw e (error_parts p c).0) (rw e (error_parts p c).1)

-- Where the shaft stands, from the reading of the converter: 511 is the middle, and an inverted
-- servo is mounted the other way round.
abbrev pub shaft : ℕ → Servo → ℤ
shaft adc s = if s.invert == 0 then sub_ℕ adc 511 else sub_ℕ 511 adc

-- Where the shaft is to stand: the sum of set point and trim, whose size on each side of the middle
-- is cut by the limit of that side.
abbrev pub aim : Servo → ℤ
aim s =
    let above_middle = pos_part s.setpoint + pos_part s.trim in
    let below_middle = neg_part s.setpoint + neg_part s.trim in
    sub_ℕ (min (pos_part s.clamph) (above_middle - below_middle))
      (min (neg_part s.clampl) (below_middle - above_middle))

from_parts :
    (z : ℤ) (lo hi x y : ℕ)
    → (neg_part z ≡ min lo (y - x)) × (pos_part z ≡ min hi (x - y))
    → z ≡ sub_ℕ (min hi (x - y)) (min lo (y - x))
from_parts (pos n) lo hi x y h = ground (arith, h)
from_parts (negsuc n) lo hi x y h = ground (arith, h)

sum_parts :
    (a b : ℤ)
    → (neg_part (a +ℤ b) ≡ neg_part a + neg_part b - (pos_part a + pos_part b))
      × (pos_part (a +ℤ b) ≡ pos_part a + pos_part b - (neg_part a + neg_part b))
unfolding ◌+ℤ◌
sum_parts a b = ground arith

-- With the fields in their ranges and a trim between -32001 and 32000, the commanded position is
-- the sum of set point and trim, without wrap-around, cut to the limits.
limited_setpoint_eq :
    (s : Servo)
    → IsBounded s
    → negsuc 32000 ≤ℤ s.trim
    → s.trim ≤ℤ pos 32000
    → limited_setpoint s ≡ aim s
unfolding limited_setpoint
limited_setpoint_eq s v lo hi =
    let sum = s.setpoint +ℤ s.trim in
    let parts = sum_parts s.setpoint s.trim in
    let fits =
      int16_fits sum (omega (arith, v.setpoint_range, parts))
        (omega (arith, v.setpoint_range, parts)) in
    rw fits (
      from_parts (at_most s.clamph (at_least s.clampl sum)) (neg_part s.clampl) (pos_part s.clamph)
        (pos_part s.setpoint + pos_part s.trim) (neg_part s.setpoint + neg_part s.trim)
        (rw (← parts.0, ← parts.1)
          (cut_parts s.clampl s.clamph sum v.clampl_range.1 v.clamph_range.0)))

pub tick-Drives_servo :
    (adc : ℕ) (s : Servo) (b : Board)
    → IsBounded s
    → adc ≤ 1023
    → negsuc 32000 ≤ℤ s.trim
    → s.trim ≤ℤ pos 32000
    → s.pwml ≢ s.pwmr
    → Drives s
        (perform_all b (tick adc s).1)
        (min 255 (4 * above (shaft adc s) (aim s)))
        (min 255 (4 * above (aim s) (shaft adc s)))
tick-Drives_servo adc s b v h lo hi ne =
    rw (← read_position_eq adc s h, ← limited_setpoint_eq s v lo hi) (tick_measured adc s b v h ne)

idle_iff :
    (s : Servo) (p c : ℤ) (b : Board)
    → Drives s b (min 255 (4 * above p c)) (min 255 (4 * above c p))
    → Drives s b 0 0 ↔ (p ≡ c)
idle_iff s p c b d = ((λ z. ground (arith, z.0, z.1, d.0, d.1)), (λ e. ground (arith, e, d.0, d.1)))

-- Under the same conditions, both sides of the bridge are at 0 after a tick exactly when the shaft
-- stands where it is to stand.
pub tick_idle_iff :
    (adc : ℕ) (s : Servo) (b : Board)
    → IsBounded s
    → adc ≤ 1023
    → negsuc 32000 ≤ℤ s.trim
    → s.trim ≤ℤ pos 32000
    → s.pwml ≢ s.pwmr
    → Drives s (perform_all b (tick adc s).1) 0 0 ↔ (shaft adc s ≡ aim s)
tick_idle_iff adc s b v h lo hi ne =
    idle_iff s (shaft adc s) (aim s) (perform_all b (tick adc s).1)
      (tick-Drives_servo adc s b v h lo hi ne)
