-- ===== src/Controller/Servo.antt =====
-- arduino/slcan_controller/IBT2Servo.cpp and IBT2Servo.h. An `int16_t` is an integer with its cast
-- written out; `int` has 16 bits on this board, so sums, products and negations are cast as well.
-- The value of `analogRead` is an argument of `tick`.
pub mod Bounds
pub mod Loop
use pi_industrial_robottools.Base.{ℕ, List, [], ◌∷◌, ◌==◌, if◌then◌else◌}
use pi_industrial_robottools.Base.Int.{ℤ, pos, negsuc, ltb_ℤ, neg_ℤ, scale, ◌+ℤ◌, ◌-ℤ◌}
use pi_industrial_robottools.Base.Word.{int16}
use pi_industrial_robottools.Controller.Board.{
  Call, pin_mode, digital_write, analog_write, output, low, high,
}

pub record Servo : Type 0 where
  pub enl : ℕ
  pub enr : ℕ
  pub pwml : ℕ
  pub pwmr : ℕ
  pub posi : ℕ
  pub invert : ℕ
  pub trim : ℤ
  pub setpoint : ℤ
  pub error : ℤ
  pub position : ℤ
  pub computed_setpoint : ℤ
  pub clampl : ℤ
  pub clamph : ℤ

abbrev pub p_gain : ℕ
p_gain = 4

-- `IBT2Servo::enable`
unfoldable pub enable : Servo → List Call
enable s = digital_write s.enl high ∷ digital_write s.enr high ∷ []

-- `IBT2Servo::disable`
unfoldable pub disable : Servo → List Call
disable s = digital_write s.enl low ∷ digital_write s.enr low ∷ []

-- The fields that the constructor sets. The other three are those of an object with static storage,
-- which starts as zeros.
unfoldable pub init : ℕ → ℕ → ℕ → ℕ → ℕ → ℕ → Servo
init enl enr pwml pwmr posi invert = record {
  enl = enl;
  enr = enr;
  pwml = pwml;
  pwmr = pwmr;
  posi = posi;
  invert = invert;
  trim = pos 0;
  setpoint = pos 0;
  error = pos 0;
  position = pos 0;
  computed_setpoint = pos 0;
  clampl = pos 0;
  clamph = pos 0;
}

-- The calls that the constructor makes.
unfoldable pub init_pins : Servo → List Call
unfolding disable
init_pins s =
    pin_mode s.pwml output
    ∷ pin_mode s.pwmr output
    ∷ pin_mode s.enl output
    ∷ pin_mode s.enr output
    ∷ disable s

-- `if (x < lo) x = lo;`
abbrev pub at_least : ℤ → ℤ → ℤ
at_least lo x = if ltb_ℤ x lo then lo else x

-- `if (x > hi) x = hi;`
abbrev pub at_most : ℤ → ℤ → ℤ
at_most hi x = if ltb_ℤ hi x then hi else x

-- `IBT2Servo::clamp`
unfoldable pub clamp : ℤ → ℤ → Servo → Servo
clamp clampl clamph s = record s {
  clampl = at_most (pos 0) (at_least (negsuc 511) clampl);
  clamph = at_least (pos 0) (at_most (pos 511) clamph);
}

-- `IBT2Servo::trim`
unfoldable pub set_trim : ℤ → Servo → Servo
set_trim trim s = record s { trim = trim }

-- `IBT2Servo::update`
unfoldable pub update : ℤ → Servo → Servo
update setpoint s = record s { setpoint = at_most (pos 511) (at_least (negsuc 511) setpoint) }

-- `IBT2Servo::drive`. The idle side is switched off first.
unfoldable pub drive : ℤ → Servo → List Call
drive error s =
    if ltb_ℤ error (pos 0)
    then (let pwm = at_most (pos 255) (int16 (neg_ℤ error)) in
        analog_write s.pwmr (pos 0) ∷ analog_write s.pwml pwm ∷ [])
    else (let pwm = at_most (pos 255) error in
        analog_write s.pwml (pos 0) ∷ analog_write s.pwmr pwm ∷ [])

-- `_position` as `tick` reads it from the converter.
unfoldable pub read_position : ℕ → Servo → ℤ
read_position adc s =
    let p = int16 (pos adc -ℤ pos 511) in if s.invert == 0 then p else int16 (neg_ℤ p)

-- `_computed_setpoint` after trim and limits.
unfoldable pub limited_setpoint : Servo → ℤ
limited_setpoint s = at_most s.clamph (at_least s.clampl (int16 (s.setpoint +ℤ s.trim)))

-- The fields as `IBT2Servo::tick` leaves them.
unfoldable pub measure : ℕ → Servo → Servo
unfolding read_position limited_setpoint
measure adc s =
    let p = read_position adc s in
    let c = limited_setpoint s in
    record s { position = p; computed_setpoint = c; error = int16 (scale p_gain (int16 (c -ℤ p))) }

-- `IBT2Servo::tick`
unfoldable pub tick : ℕ → Servo → Servo × List Call
unfolding measure
tick adc s = let s' = measure adc s in (s', drive s'.error s')
