-- ===== src/Controller/Motor/Bridge.antt =====
-- The H-bridge: the two sides are never driven at once, and the duty follows the set point.
use Prim.Native.Nat.{min}
use pi_industrial_robottools.Base.{ℕ, suc, ◌/◌, ◌==◌, if◌then◌else◌, ◌≡◌, ◌≢◌, ◌⊎◌, arith}
use pi_industrial_robottools.Base.Int.{ℤ, pos, negsuc, ◌≤ℤ◌, pos_part, neg_part, neg_ℤ, quot}
use pi_industrial_robottools.Base.Word.{int16, int16_fits}
use pi_industrial_robottools.Controller.Board.{Board, perform_all, Throughout}
use pi_industrial_robottools.Controller.Cut.{cut_parts}
use pi_industrial_robottools.Controller.Motor.{Motor, tick_error, tick, drive}
use pi_industrial_robottools.Controller.Motor.Bounds.{IsBounded, tick_error_within}

-- One side at least is off.
abbrev pub IsSafe : Motor → Board → Type 0
IsSafe m b = (b.analog m.pwml ≡ pos 0) ⊎ (b.analog m.pwmr ≡ pos 0)

-- The duty written to each side is `l` and `r`.
abbrev pub Drives : Motor → Board → ℕ → ℕ → Type 0
Drives m b l r = (b.analog m.pwml ≡ pos l) × (b.analog m.pwmr ≡ pos r)

pub drive-IsSafe :
    (e : ℤ) (m : Motor) (b : Board)
    → m.pwml ≢ m.pwmr
    → IsSafe m b
    → Throughout (IsSafe m) b (drive e m)
unfolding drive
drive-IsSafe e m b ne safe = ground arith

pub drive-Drives :
    (e : ℤ) (m : Motor) (b : Board)
    → m.pwml ≢ m.pwmr
    → negsuc 32766 ≤ℤ e
    → Drives m (perform_all b (drive e m)) (min 255 (neg_part e)) (min 255 (pos_part e))
unfolding drive neg_ℤ
drive-Drives (pos n) m b ne lo = ground arith
drive-Drives (negsuc n) m b ne lo =
    ground (arith, int16_fits (pos (suc n)) (omega arith) (omega arith))

-- What is asked of each side: the set point's size on the side of its sign, or on the other side if
-- the motor is mounted the other way round.
abbrev pub asked_left : Motor → ℕ
asked_left m = if m.invert == 0 then neg_part m.setpoint else pos_part m.setpoint

abbrev pub asked_right : Motor → ℕ
asked_right m = if m.invert == 0 then pos_part m.setpoint else neg_part m.setpoint

turned_parts :
    (m : Motor)
    → IsBounded m
    → let e = if m.invert == 0 then m.setpoint else int16 (neg_ℤ m.setpoint) in
      (neg_part e ≡ asked_left m) × (pos_part e ≡ asked_right m)
unfolding neg_ℤ
turned_parts m v = ground (arith, v.setpoint_range, int16_fits (neg_ℤ m.setpoint))

error_parts :
    (m : Motor)
    → IsBounded m
    → (neg_part (tick_error m) ≡ min (neg_part m.clampl) (asked_left m))
      × (pos_part (tick_error m) ≡ min (pos_part m.clamph) (asked_right m))
unfolding tick_error neg_ℤ
error_parts m v =
    let e = if m.invert == 0 then m.setpoint else int16 (neg_ℤ m.setpoint) in
    ground (
      arith,
      v.clampl_range.1,
      v.clamph_range.0,
      turned_parts m v,
      cut_parts m.clampl m.clamph e v.clampl_range.1 v.clamph_range.0,
    )

tick_measured :
    (m : Motor) (b : Board)
    → IsBounded m
    → m.pwml ≢ m.pwmr
    → Drives m
        (perform_all b (tick m).1)
        (min 255 (neg_part (tick_error m) / 2))
        (pos_part (tick_error m) / 2)
unfolding tick quot
tick_measured m b v ne = ground (
  arith,
  v.clampl_range,
  v.clamph_range,
  tick_error_within m v,
  drive-Drives (quot (tick_error m) 2) m b ne,
)

-- A tick of a motor driver with its fields in their ranges and two different PWM pins writes half
-- of the set point, which is negated if the driver is inverted and cut to the limits, to the side
-- of its sign, and 0 to the other; the one half that does not fit the PWM unit, that of -512, is
-- cut to 255.
pub tick-Drives_motor :
    (m : Motor) (b : Board)
    → IsBounded m
    → m.pwml ≢ m.pwmr
    → Drives m
        (perform_all b (tick m).1)
        (min 255 (min (neg_part m.clampl) (asked_left m) / 2))
        (min (pos_part m.clamph) (asked_right m) / 2)
tick-Drives_motor m b v ne =
    rw (← (error_parts m v).0, ← (error_parts m v).1) (tick_measured m b v ne)

-- With two different PWM pins of which one at least is off, a tick of the motor driver never
-- drives both at once, not even between its two writes.
pub tick-IsSafe_motor :
    (m : Motor) (b : Board) → m.pwml ≢ m.pwmr → IsSafe m b → Throughout (IsSafe m) b (tick m).1
unfolding tick
tick-IsSafe_motor m b ne safe = drive-IsSafe (quot (tick_error m) 2) m b ne safe
