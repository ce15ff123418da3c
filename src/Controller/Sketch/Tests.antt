-- ===== src/Controller/Sketch/Tests.antt =====
-- Runs of the receiver and the sketch on concrete frames: SLCan.cpp and slcan_controller.ino.
use pi_industrial_robottools.Base.{
  ℕ, ◌<◌, ◌≡◌, ◌≢◌, refl, arith, Bool, true, false, List, [], ◌∷◌, ◌++◌, Option, none, some, length,
  replicate, map, ◌==◌,
}
use pi_industrial_robottools.Base.Int.{pos}
use pi_industrial_robottools.Controller.Board.{Board}
use pi_industrial_robottools.Controller.Can.{
  SlCan, send, input, input_byte, find_item, slc_mtu, slot, handle, hex_to_dec, hex_digit, store,
  handle_item, fill, begin,
}
use pi_industrial_robottools.Controller.Can.Line.{parse, push}
use pi_industrial_robottools.Controller.Can.Receive.{
  IsValid, pending, Handles, handle-Handles, input_byte-pending,
}
use pi_industrial_robottools.Controller.Can.Text.{NoCr}
use pi_industrial_robottools.Controller.Can.Complete.{Reads}
use pi_industrial_robottools.Controller.Can.RoundTrip.{send-input, send-input_overrun}
use pi_industrial_robottools.Controller.Sketch.{
  Sketch, Arrival, Turn, Handler, can_rx_tab, construct, setup, loop, poll_can, update_setpoints,
}
use pi_industrial_robottools.Controller.Sketch.Deadline.{IsFresh, accepted}
use pi_industrial_robottools.Base.Int.{negsuc}
use pi_industrial_robottools.Controller.Motor
use pi_industrial_robottools.Controller.Servo
use pi_industrial_robottools.Controller.Timer
use pi_industrial_robottools.Controller.Sketch.{two_bytes}
use pi_industrial_robottools.Controller.Sketch.Deadline.{IsWired}
use pi_industrial_robottools.Controller.Sketch.Command.{Commands, update_setpoints-Commands}
use pi_industrial_robottools.Controller.Sketch.Guard.{start, Runs-IsFresh}

ne_of_test : (a b : ℕ) → (a == b) ≡ false → a ≢ b
ne_of_test a b h e = ground (arith, h, e)

id_NoCr : NoCr (b'0' ∷ b'1' ∷ b'4' ∷ [])
id_NoCr = (ne_of_test b'0' 13 refl, (ne_of_test b'1' 13 refl, (ne_of_test b'4' 13 refl, tt)))

abbrev idle_line : SlCan Handler
idle_line = record { rptr = 0; rxbuf = replicate slc_mtu 0; tab = can_rx_tab }

abbrev idle_line-IsValid : IsValid idle_line
idle_line-IsValid = record { in_buffer = omega arith; size = refl }

abbrev junk : SlCan Handler → List ℕ
junk c = replicate 8 170

abbrev four : List ℕ
four = 1 ∷ 44 ∷ 255 ∷ 156 ∷ []

abbrev eight : List ℕ
eight = replicate 8 7

sent_text :
    (send (b'0' ∷ b'1' ∷ b'4' ∷ []) four 4 64).1
    ≡ b't' ∷ b'0' ∷ b'1' ∷ b'4' ∷ b'4' ∷ b'0' ∷ b'1' ∷ b'2' ∷ b'c' ∷ b'f' ∷ b'f' ∷ b'9' ∷ b'c' ∷ 13
      ∷ []
unfolding send hex_digit
sent_text = refl

send-input_example :
    Reads junk
      (send (b'0' ∷ b'1' ∷ b'4' ∷ []) four (length four) 64).1
      idle_line
      Handler.update_servo_setpoint
      four
unfolding find_item
send-input_example =
    send-input junk (λ s. refl) idle_line idle_line-IsValid refl b'0' b'1' b'4' four 64 refl id_NoCr
      (omega arith, (omega arith, (omega arith, (omega arith, tt)))) (omega arith) (omega arith)

send-input_overrun_example :
    ((send (b'0' ∷ b'1' ∷ b'4' ∷ []) eight (length eight) 64).0 ≡ false)
    × (input junk (send (b'0' ∷ b'1' ∷ b'4' ∷ []) eight (length eight) 64).1 idle_line ≡ none)
unfolding find_item
send-input_overrun_example =
    send-input_overrun junk (λ s. refl) idle_line idle_line-IsValid refl b'0' b'1' b'4' eight 64
      refl id_NoCr
      (
        omega arith,
        (
          omega arith,
          (
            omega arith,
            (omega arith, (omega arith, (omega arith, (omega arith, (omega arith, tt))))),
          ),
        ),
      )
      refl (omega arith)

-- A complete line in the buffer.
abbrev full_line : SlCan Handler
full_line = record {
  rptr = 14;
  rxbuf =
      (b't' ∷ b'0' ∷ b'1' ∷ b'4' ∷ b'4' ∷ b'0' ∷ b'1' ∷ b'2' ∷ b'c' ∷ b'f' ∷ b'f' ∷ b'9' ∷ b'c' ∷ 13
        ∷ [])
      ++ replicate 19 0;
  tab = can_rx_tab;
}

abbrev full_line-IsValid : IsValid full_line
full_line-IsValid = record { in_buffer = omega arith; size = refl }

handle-Handles_example :
    Handles (parse full_line.tab (pending full_line)) (handle (replicate 8 170) full_line)
handle-Handles_example = handle-Handles (replicate 8 170) full_line refl full_line-IsValid

input_byte-pending_example :
    IsValid (input_byte (replicate 8 170) 13 full_line).0
    × (slot full_line < length full_line.rxbuf)
    × (pending (input_byte (replicate 8 170) 13 full_line).0 ≡ push (pending full_line) 13)
input_byte-pending_example = input_byte-pending (replicate 8 170) 13 full_line full_line-IsValid

abbrev blank : Board
blank = record { digital = λ p. 0; analog = λ p. pos 0 }

-- A turn in which a frame of set points arrives at 1000 ms.
abbrev arrive : List ℕ → List Arrival
arrive = map (λ b. record { byte = b; time = 1000; stack = replicate 8 170 })

abbrev busy_turn : Turn
busy_turn = record {
  arrivals = arrive (
      b't' ∷ b'0' ∷ b'1' ∷ b'4' ∷ b'4' ∷ b'0' ∷ b'1' ∷ b'2' ∷ b'c' ∷ b'f' ∷ b'f' ∷ b'9' ∷ b'c' ∷ 13
      ∷ []);
  deadline_time = 1001;
  servo_time = 1002;
  adc = 400;
  send_time = 1003;
  space = 64;
}

abbrev powered : Sketch
powered = setup (construct 900 blank)

abbrev from_some : Option (Sketch × List ℕ) → Sketch × List ℕ
from_some none = (powered, [])
from_some (some p) = p

abbrev after_turn : Sketch × List ℕ
after_turn = from_some (loop busy_turn powered)

abbrev returns : Option (Sketch × List ℕ) → Bool
returns none = false
returns (some p) = true

from_some-eq :
    (o : Option (Sketch × List ℕ)) → returns o ≡ true → o ≡ some ((from_some o).0, (from_some o).1)
from_some-eq none h = cc
from_some-eq (some p) h = refl

turn_ends : returns (loop busy_turn powered) ≡ true
unfolding loop poll_can input_byte handle find_item handle_item fill hex_to_dec store setup begin
    construct update_setpoints
turn_ends = refl

turn_returns : loop busy_turn powered ≡ some (after_turn.0, after_turn.1)
turn_returns = from_some-eq (loop busy_turn powered) turn_ends

Runs-IsFresh_example : IsFresh 1001 after_turn.0 (accepted busy_turn.arrivals powered [])
Runs-IsFresh_example =
    Runs-IsFresh busy_turn powered after_turn.0 after_turn.1 [] (start 900 blank) turn_returns

accepted_one : accepted busy_turn.arrivals powered [] ≡ 1000 ∷ []
unfolding accepted poll_can input_byte handle find_item handle_item fill hex_to_dec store setup
    begin construct update_setpoints
accepted_one = refl

powered-IsWired : IsWired powered
unfolding setup construct Servo.init Motor.init Servo.clamp Servo.set_trim Motor.clamp Timer.init
powered-IsWired = record {
  servo_enl = refl;
  servo_enr = refl;
  motor_enl = refl;
  motor_enr = refl;
  deadline = refl;
}

update_setpoints-Commands_example :
    Commands
      (pos 300)
      (negsuc 99)
      1000
      (update_setpoints 1000 (two_bytes (pos 300) (two_bytes (negsuc 99) [])) 4 powered)
update_setpoints-Commands_example =
    update_setpoints-Commands (pos 300) (negsuc 99) [] 1000 powered (omega arith, omega arith)
      (omega arith, omega arith) powered-IsWired
