-- ===== src/Controller/Motor/Bounds.antt =====
-- The ranges of the motor driver's set points and limits.
use pi_industrial_robottools.Base.{ℕ, arith}
use pi_industrial_robottools.Base.Int.{ℤ, pos, negsuc, ◌≤ℤ◌}
use pi_industrial_robottools.Controller.Motor.{Motor, init, clamp, update, tick_error, tick}

-- The ranges that IBT2Motor.h states.
pub record IsBounded (m : Motor) : Type 0 where
  pub setpoint_range : (negsuc 511 ≤ℤ m.setpoint) × (m.setpoint ≤ℤ pos 511)
  pub clampl_range : (negsuc 511 ≤ℤ m.clampl) × (m.clampl ≤ℤ pos 0)
  pub clamph_range : (pos 0 ≤ℤ m.clamph) × (m.clamph ≤ℤ pos 511)
  pub error_range : (negsuc 511 ≤ℤ m.error) × (m.error ≤ℤ pos 511)

pub init-IsBounded : (a b c d i : ℕ) → IsBounded (init a b c d i)
unfolding init
init-IsBounded a b c d i = omega arith

pub clamp-IsBounded : (lo hi : ℤ) {m : Motor} → IsBounded m → IsBounded (clamp lo hi m)
unfolding clamp
clamp-IsBounded lo hi v = ground arith

pub update-IsBounded : (x : ℤ) {m : Motor} → IsBounded m → IsBounded (update x m)
unfolding update
update-IsBounded x v = ground arith

-- What `tick` drives at lies between the limits, whatever the set point is.
pub tick_error_within :
    (m : Motor) → IsBounded m → (m.clampl ≤ℤ tick_error m) × (tick_error m ≤ℤ m.clamph)
unfolding tick_error
tick_error_within m v = ground (arith, v.clampl_range, v.clamph_range)

pub tick-IsBounded : {m : Motor} → IsBounded m → IsBounded (tick m).0
unfolding tick
tick-IsBounded {m} v = ground (arith, tick_error_within m v)

-- The motor drivers that the class's operations lead to.
pub data Reached : Motor → Type 0 where
  built : (enl enr pwml pwmr invert : ℕ) → Reached (init enl enr pwml pwmr invert)
  clamped : {m : Motor} (lo hi : ℤ) → Reached m → Reached (clamp lo hi m)
  updated : {m : Motor} (x : ℤ) → Reached m → Reached (update x m)
  ticked : {m : Motor} → Reached m → Reached (tick m).0

-- However a motor driver is built and used, its set point, its limits and the value that it
-- drives at stay in the ranges that IBT2Motor.h states.
pub Reached-IsBounded_motor : {m : Motor} → Reached m → IsBounded m
Reached-IsBounded_motor (built a b c d i) = init-IsBounded a b c d i
Reached-IsBounded_motor (clamped lo hi r) = clamp-IsBounded lo hi (Reached-IsBounded_motor r)
Reached-IsBounded_motor (updated x r) = update-IsBounded x (Reached-IsBounded_motor r)
Reached-IsBounded_motor (ticked r) = tick-IsBounded (Reached-IsBounded_motor r)
