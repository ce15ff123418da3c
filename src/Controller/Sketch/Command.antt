-- ===== src/Controller/Sketch/Command.antt =====
-- What a frame of set points does to the sketch: `UpdateServoSetpoint` of slcan_controller.ino.
use pi_industrial_robottools.Base.{ℕ, ◌+◌, ◌*◌, ◌/◌, ◌%◌, ◌≡◌, refl, arith, List, bit_or}
use pi_industrial_robottools.Base.Int.{ℤ, pos, negsuc}
use pi_industrial_robottools.Base.Word.{IsInt16, bits16, signed16, bits16-lt, signed16-bits16}
use pi_industrial_robottools.Base.Bits.{bit_or_bytes}
use pi_industrial_robottools.Controller.Motor
use pi_industrial_robottools.Controller.Servo
use pi_industrial_robottools.Controller.Timer
use pi_industrial_robottools.Controller.Sketch.{Sketch, word_at, two_bytes, update_setpoints}
use pi_industrial_robottools.Controller.Sketch.Deadline.{IsWired}

word_of_bytes : (w : ℕ) → w / 256 % 256 * 256 + w % 256 ≡ w % 65536
word_of_bytes w = omega arith

pub signed_word :
    (z : ℤ) → IsInt16 z → signed16 (bit_or (bits16 z / 256 % 256 * 256) (bits16 z % 256)) ≡ z
signed_word z h =
    let small = bits16-lt z in
    let whole : bit_or (bits16 z / 256 % 256 * 256) (bits16 z % 256) ≡ bits16 z = omega (
      arith,
      small,
      word_of_bytes (bits16 z),
      bit_or_bytes (bits16 z / 256 % 256) (bits16 z % 256) (omega arith),
    ) in
    rw whole (signed16-bits16 z h)

-- The sketch after a frame of the set points `x` and `y` at the time `now`.
pub record Commands (x y : ℤ) (now : ℕ) (k : Sketch) : Type 0 where
  pub speed : k.ibt2m.setpoint ≡ Motor.at_most (pos 511) (Motor.at_least (negsuc 511) x)
  pub steering : k.ibt2s.setpoint ≡ Servo.at_most (pos 511) (Servo.at_least (negsuc 511) y)
  pub deadline : k.drives_off.last ≡ now
  pub servo_l : k.board.digital k.ibt2s.enl ≡ 1
  pub servo_r : k.board.digital k.ibt2s.enr ≡ 1
  pub motor_l : k.board.digital k.ibt2m.enl ≡ 1
  pub motor_r : k.board.digital k.ibt2m.enr ≡ 1

-- A frame of four bytes that holds two 16-bit numbers, high bytes first, makes the callback of a
-- sketch with its own enable pins set the motor's set point to the first number and the servo's
-- to the second, each cut to the range from -512 to 511, restart the deadline at the time given,
-- and leave all four enable pins high.
pub update_setpoints-Commands :
    (x y : ℤ) (rest : List ℕ) (now : ℕ) (k : Sketch)
    → IsInt16 x
    → IsInt16 y
    → IsWired k
    → Commands x y now (update_setpoints now (two_bytes x (two_bytes y rest)) 4 k)
unfolding update_setpoints word_at Motor.update Servo.update Timer.reset Servo.enable Motor.enable
update_setpoints-Commands x y rest now k hx hy w = record {
  speed = rw (signed_word x hx) refl;
  steering = rw (signed_word y hy) refl;
  deadline = refl;
  servo_l = ground (arith, w);
  servo_r = ground (arith, w);
  motor_l = ground (arith, w);
  motor_r = ground (arith, w);
}
