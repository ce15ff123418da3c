-- ===== src/Stream/Tests.antt =====
-- Runs of the remote control on concrete events: controlstream.
use pi_industrial_robottools.Base.{◌≡◌, refl, arith, [], ◌∷◌, ◌++◌, some}
use pi_industrial_robottools.Base.Int.{pos, negsuc, neg_ℤ, quot}
use pi_industrial_robottools.Base.Word.{int16, bits16}
use pi_industrial_robottools.Controller.Board.{Board}
use pi_industrial_robottools.Controller.Motor
use pi_industrial_robottools.Controller.Servo
use pi_industrial_robottools.Controller.Timer
use pi_industrial_robottools.Controller.Sketch.{Sketch, construct, setup, update_setpoints}
use pi_industrial_robottools.Controller.Sketch.Deadline.{IsWired}
use pi_industrial_robottools.Stream.Joystick
use pi_industrial_robottools.Stream.Joystick.{
  SdlEvent, Sticks, centred, move, loop, steer, accelerate, Reached, IsBounded, begun, moved,
  Reached-IsBounded_sticks,
}
use pi_industrial_robottools.Stream.Gateway
use pi_industrial_robottools.Stream.Gateway.{CanFrame, turn}
use pi_industrial_robottools.Stream.EndToEnd.{Obeys, turn-send_socketcan, update_setpoints-Obeys}

-- The right stick up and the left one to the left, to their ends.
abbrev full : Sticks
full = move 2 (negsuc 32767) (move 1 (negsuc 32767) centred)

full-Reached : Reached full
full-Reached =
    moved 2 (negsuc 32767) (omega arith, omega arith)
      (moved 1 (negsuc 32767) (omega arith, omega arith) begun)

full_positions : full ≡ record { steering_position = negsuc 169; throttle_position = pos 511 }
unfolding move steer accelerate quot int16 neg_ℤ
full_positions = refl

sent :
    loop
      (SdlEvent.axis_motion 1 (negsuc 32767)
        ∷ SdlEvent.user_event
        ∷ SdlEvent.quit
        ∷ SdlEvent.user_event
        ∷ [])
      centred
    ≡ (1 ∷ 255 ∷ 0 ∷ 0 ∷ []) ∷ []
unfolding loop move accelerate Joystick.send_socketcan bits16 int16 neg_ℤ quot
sent = refl

Reached-IsBounded_sticks_example : IsBounded full
Reached-IsBounded_sticks_example = Reached-IsBounded_sticks full-Reached

turn-send_socketcan_example :
    turn (some (Joystick.send_socketcan (pos 300) (negsuc 99)))
    ≡ some (Gateway.send_socketcan (pos 300) (negsuc 99))
turn-send_socketcan_example =
    turn-send_socketcan (pos 300) (negsuc 99) (omega arith, omega arith) (omega arith, omega arith)

abbrev blank : Board
blank = record { digital = λ p. 0; analog = λ p. pos 0 }

abbrev powered : Sketch
powered = setup (construct 900 blank)

powered-IsWired : IsWired powered
unfolding setup construct Servo.init Motor.init Servo.clamp Servo.set_trim Motor.clamp Timer.init
powered-IsWired = record {
  servo_enl = refl;
  servo_enr = refl;
  motor_enl = refl;
  motor_enr = refl;
  deadline = refl;
}

update_setpoints-Obeys_example :
    (f : CanFrame) × (turn
        (some (Joystick.send_socketcan full.throttle_position full.steering_position))
      ≡ some f)
    × (f.can_id ≡ 20)
    × Obeys full 1_000 (update_setpoints 1_000 (f.bytes ++ []) f.can_dlc powered)
update_setpoints-Obeys_example =
    update_setpoints-Obeys full [] 1_000 powered full-Reached powered-IsWired
