-- ===== src/Stream/EndToEnd.antt =====
-- From the joystick to the motors: controlstream/joystick-input.c, controlstream/rover-stick-ctl.c
-- and the sketch of arduino/slcan_controller, with the network and the CAN bus between them, which
-- carry the bytes as they are.
use pi_industrial_robottools.Base.{ℕ, ◌≡◌, refl, ◌∙◌, List, ◌++◌, some, arith}
use pi_industrial_robottools.Base.Int.{ℤ, pos, negsuc, ◌≤ℤ◌}
use pi_industrial_robottools.Base.Word.{IsInt16}
use pi_industrial_robottools.Stream.Joystick
use pi_industrial_robottools.Stream.Joystick.{Sticks, Reached, IsBounded, Reached-IsBounded_sticks}
use pi_industrial_robottools.Stream.Gateway
use pi_industrial_robottools.Stream.Gateway.{CanFrame, word, turn}
use pi_industrial_robottools.Controller.Motor
use pi_industrial_robottools.Controller.Servo
use pi_industrial_robottools.Controller.Sketch.{Sketch, update_setpoints}
use pi_industrial_robottools.Controller.Sketch.Deadline.{IsWired}
use pi_industrial_robottools.Controller.Sketch.Command.{signed_word, update_setpoints-Commands}

-- What the joystick program writes, the gateway reads.
pub turn-send_socketcan :
    (throttle steering : ℤ)
    → IsInt16 throttle
    → IsInt16 steering
    → turn (some (Joystick.send_socketcan throttle steering))
      ≡ some (Gateway.send_socketcan throttle steering)
unfolding turn Joystick.send_socketcan word
turn-send_socketcan throttle steering t s = rw (signed_word throttle t, signed_word steering s) refl

-- The sketch drives at the positions of the sticks.
pub record Obeys (s : Sticks) (now : ℕ) (k : Sketch) : Type 0 where
  pub speed : k.ibt2m.setpoint ≡ s.throttle_position
  pub steering : k.ibt2s.setpoint ≡ s.steering_position
  pub deadline : k.drives_off.last ≡ now

uncut_speed :
    (z : ℤ)
    → negsuc 511 ≤ℤ z
    → z ≤ℤ pos 511
    → Motor.at_most (pos 511) (Motor.at_least (negsuc 511) z) ≡ z
uncut_speed z lo hi = ground arith

uncut_steering :
    (z : ℤ)
    → negsuc 511 ≤ℤ z
    → z ≤ℤ pos 511
    → Servo.at_most (pos 511) (Servo.at_least (negsuc 511) z) ≡ z
uncut_steering z lo hi = ground arith

-- For any positions that the joystick's axis motions lead to, what the joystick program sends
-- makes the gateway write a CAN frame with the identifier 0x14, and the callback of a sketch with
-- its own enable pins, given that frame's bytes, sets the speed of the motor and the position of
-- the servo to exactly these positions and restarts the deadline.
pub update_setpoints-Obeys :
    (s : Sticks) (rest : List ℕ) (now : ℕ) (k : Sketch)
    → Reached s
    → IsWired k
    → (f : CanFrame) × (turn
          (some (Joystick.send_socketcan s.throttle_position s.steering_position))
        ≡ some f)
      × (f.can_id ≡ 20)
      × Obeys s now (update_setpoints now (f.bytes ++ rest) f.can_dlc k)
unfolding Gateway.send_socketcan
update_setpoints-Obeys s rest now k r w =
    let b = Reached-IsBounded_sticks r in
    let c =
      update_setpoints-Commands s.throttle_position s.steering_position rest now k
        (omega (arith, b.throttle_range)) (omega (arith, b.steering_range)) w in
    (
      Gateway.send_socketcan s.throttle_position s.steering_position,
      turn-send_socketcan s.throttle_position s.steering_position (omega (arith, b.throttle_range))
          (omega (arith, b.steering_range)),
      refl,
      record {
        speed =
            c.speed
            ∙ uncut_speed s.throttle_position (omega (arith, b.throttle_range))
                (omega (arith, b.throttle_range));
        steering =
            c.steering
            ∙ uncut_steering s.steering_position (omega (arith, b.steering_range))
                (omega (arith, b.steering_range));
        deadline = c.deadline;
      },
    )
