-- ===== src/Controller/Servo/Bounds.antt =====
-- The ranges of the servo's set points, and that its arithmetic does not wrap.
use pi_industrial_robottools.Base.{ℕ, ◌≤◌, ◌≡◌, ◌==◌, if◌then◌else◌, arith}
use pi_industrial_robottools.Base.Int.{ℤ, pos, negsuc, ◌≤ℤ◌, neg_ℤ, ◌-ℤ◌, sub_ℕ}
use pi_industrial_robottools.Base.Word.{int16_fits}
use pi_industrial_robottools.Controller.Servo.{
  Servo, init, clamp, update, set_trim, read_position, limited_setpoint, measure, tick,
}

-- The ranges that IBT2Servo.h states.
pub record IsBounded (s : Servo) : Type 0 where
  pub setpoint_range : (negsuc 511 ≤ℤ s.setpoint) × (s.setpoint ≤ℤ pos 511)
  pub clampl_range : (negsuc 511 ≤ℤ s.clampl) × (s.clampl ≤ℤ pos 0)
  pub clamph_range : (pos 0 ≤ℤ s.clamph) × (s.clamph ≤ℤ pos 511)
  pub computed_range : (negsuc 511 ≤ℤ s.computed_setpoint) × (s.computed_setpoint ≤ℤ pos 511)

pub init-IsBounded : (a b c d p i : ℕ) → IsBounded (init a b c d p i)
unfolding init
init-IsBounded a b c d p i = omega arith

pub clamp-IsBounded : (lo hi : ℤ) {s : Servo} → IsBounded s → IsBounded (clamp lo hi s)
unfolding clamp
clamp-IsBounded lo hi v = ground arith

pub update-IsBounded : (x : ℤ) {s : Servo} → IsBounded s → IsBounded (update x s)
unfolding update
update-IsBounded x v = ground arith

pub set_trim-IsBounded : (x : ℤ) {s : Servo} → IsBounded s → IsBounded (set_trim x s)
unfolding set_trim
set_trim-IsBounded x v = ground arith

-- The commanded position lies between the limits, whatever the set point and the trim are.
pub limited_setpoint_within :
    (s : Servo) → IsBounded s → (s.clampl ≤ℤ limited_setpoint s) × (limited_setpoint s ≤ℤ s.clamph)
unfolding limited_setpoint
limited_setpoint_within s v = ground (arith, v.clampl_range, v.clamph_range)

pub tick-IsBounded : (adc : ℕ) {s : Servo} → IsBounded s → IsBounded (tick adc s).0
unfolding tick measure
tick-IsBounded adc {s} v =
    ground (arith, limited_setpoint_within s v, v.clampl_range, v.clamph_range)

-- The converter has 10 bits, so a position fits.
pub read_position_eq :
    (adc : ℕ) (s : Servo)
    → adc ≤ 1023
    → read_position adc s ≡ (if s.invert == 0 then sub_ℕ adc 511 else sub_ℕ 511 adc)
unfolding read_position ◌-ℤ◌ neg_ℤ
read_position_eq adc s h = ground (arith, int16_fits (sub_ℕ adc 511), int16_fits (sub_ℕ 511 adc))

-- The servos that the class's operations lead to.
pub data Reached : Servo → Type 0 where
  built : (enl enr pwml pwmr posi invert : ℕ) → Reached (init enl enr pwml pwmr posi invert)
  clamped : {s : Servo} (lo hi : ℤ) → Reached s → Reached (clamp lo hi s)
  trimmed : {s : Servo} (x : ℤ) → Reached s → Reached (set_trim x s)
  updated : {s : Servo} (x : ℤ) → Reached s → Reached (update x s)
  ticked : {s : Servo} (adc : ℕ) → Reached s → Reached (tick adc s).0

-- However a servo is built and used, with any trim and any reading, its set point, its limits and
-- the commanded position stay in the ranges that IBT2Servo.h states.
pub Reached-IsBounded_servo : {s : Servo} → Reached s → IsBounded s
Reached-IsBounded_servo (built a b c d p i) = init-IsBounded a b c d p i
Reached-IsBounded_servo (clamped lo hi r) = clamp-IsBounded lo hi (Reached-IsBounded_servo r)
Reached-IsBounded_servo (trimmed x r) = set_trim-IsBounded x (Reached-IsBounded_servo r)
Reached-IsBounded_servo (updated x r) = update-IsBounded x (Reached-IsBounded_servo r)
Reached-IsBounded_servo (ticked adc r) = tick-IsBounded adc (Reached-IsBounded_servo r)
