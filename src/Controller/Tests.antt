-- ===== src/Controller/Tests.antt =====
-- Runs of the controller's model on concrete inputs: arduino/slcan_controller.
use Prim.Native.Nat.{min}
use pi_industrial_robottools.Base.{
  ℕ, ◌-◌, ◌/◌, ◌^◌, ◌≡◌, ◌≢◌, refl, inl, arith, false, [], ◌∷◌, ◌==◌,
}
use pi_industrial_robottools.Base.Int.{
  quot, scale, ◌-ℤ◌, pos, negsuc, ◌+ℤ◌, neg_ℤ, pos_part, neg_part,
}
use pi_industrial_robottools.Base.Word.{u32, int16}
use pi_industrial_robottools.Controller.Board.{Board, Throughout, perform_all, analog_write}
use pi_industrial_robottools.Controller.Motor
use pi_industrial_robottools.Controller.Motor.{Motor}
use pi_industrial_robottools.Controller.Motor.Bounds as MotorBounds
use pi_industrial_robottools.Controller.Motor.Bridge as MotorBridge
use pi_industrial_robottools.Controller.Servo
use pi_industrial_robottools.Controller.Servo.{Servo}
use pi_industrial_robottools.Controller.Servo.Bounds as ServoBounds
use pi_industrial_robottools.Controller.Servo.Loop as ServoLoop
use pi_industrial_robottools.Controller.Timer.{Timer}

abbrev blank : Board
blank = record { digital = λ p. 0; analog = λ p. pos 0 }

abbrev wheel : Motor
wheel = record {
  enl = 4;
  enr = 2;
  pwml = 9;
  pwmr = 10;
  invert = 1;
  setpoint = pos 300;
  error = pos 0;
  clampl = negsuc 510;
  clamph = pos 511;
}

abbrev wheel-IsBounded : MotorBounds.IsBounded wheel
wheel-IsBounded = record {
  setpoint_range = omega arith;
  clampl_range = omega arith;
  clamph_range = omega arith;
  error_range = omega arith;
}

abbrev rudder : Servo
rudder = record {
  enl = 8;
  enr = 7;
  pwml = 5;
  pwmr = 6;
  posi = 3;
  invert = 1;
  trim = pos 50;
  setpoint = pos 100;
  error = pos 0;
  position = pos 0;
  computed_setpoint = pos 0;
  clampl = negsuc 57;
  clamph = pos 166;
}

abbrev rudder-IsBounded : ServoBounds.IsBounded rudder
rudder-IsBounded = record {
  setpoint_range = omega arith;
  clampl_range = omega arith;
  clamph_range = omega arith;
  computed_range = omega arith;
}

pins_differ : (a b : ℕ) → (a == b) ≡ false → a ≢ b
pins_differ a b h e = ground (arith, h, e)

wheel_backwards : (Motor.tick wheel).1 ≡ analog_write 10 (pos 0) ∷ analog_write 9 (pos 150) ∷ []
unfolding Motor.tick Motor.drive quot int16 neg_ℤ
wheel_backwards = refl

tick-Drives_motor_example :
    MotorBridge.Drives wheel
      (perform_all blank (Motor.tick wheel).1)
      (min 255 (min (neg_part wheel.clampl) (MotorBridge.asked_left wheel) / 2))
      (min (pos_part wheel.clamph) (MotorBridge.asked_right wheel) / 2)
tick-Drives_motor_example =
    MotorBridge.tick-Drives_motor wheel blank wheel-IsBounded (pins_differ 9 10 refl)

tick-IsSafe_motor_example : Throughout (MotorBridge.IsSafe wheel) blank (Motor.tick wheel).1
tick-IsSafe_motor_example =
    MotorBridge.tick-IsSafe_motor wheel blank (pins_differ 9 10 refl) (inl refl)

rudder_towards : (Servo.tick 400 rudder).1 ≡ analog_write 5 (pos 0) ∷ analog_write 6 (pos 156) ∷ []
unfolding Servo.tick Servo.measure Servo.drive int16 scale ◌-ℤ◌ ◌+ℤ◌ neg_ℤ
rudder_towards = refl

-- The set point 100 with the trim 50 puts the shaft at 150 above the middle; it stands at 111, so
-- the right side gets four times 39.
rudder_aims : ServoLoop.aim rudder ≡ pos 150
rudder_aims = refl

rudder_stands : ServoLoop.shaft 400 rudder ≡ pos 111
rudder_stands = refl

tick-IsSafe_servo_example : Throughout (ServoLoop.IsSafe rudder) blank (Servo.tick 400 rudder).1
tick-IsSafe_servo_example =
    ServoLoop.tick-IsSafe_servo 400 rudder blank (pins_differ 5 6 refl) (inl refl)

Reached-IsBounded_servo_example :
    ServoBounds.IsBounded
      (Servo.tick 400
        (Servo.update (negsuc 8999) (Servo.set_trim (pos 50) (Servo.init 8 7 5 6 3 1)))).0
Reached-IsBounded_servo_example = ServoBounds.Reached-IsBounded_servo (
    ServoBounds.ticked 400 (
      ServoBounds.updated (negsuc 8999)
        (ServoBounds.trimmed (pos 50) (ServoBounds.built 8 7 5 6 3 1))))

-- The counter wraps between the reset and the question.
abbrev late : Timer
late = record { ms = 200; last = u32 (2 ^ 32 - 100) }
