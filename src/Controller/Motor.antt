-- ===== src/Controller/Motor.antt =====
-- arduino/slcan_controller/IBT2Motor.cpp and IBT2Motor.h. An `int16_t` is an integer with its cast
-- written out; `int` has 16 bits on this board, so products and negations are cast as well.
pub mod Bounds
pub mod Bridge
use pi_industrial_robottools.Base.{ℕ, List, [], ◌∷◌, ◌==◌, if◌then◌else◌}
use pi_industrial_robottools.Base.Int.{ℤ, pos, negsuc, ltb_ℤ, neg_ℤ, quot}
use pi_industrial_robottools.Base.Word.{int16}
use pi_industrial_robottools.Controller.Board.{
  Call, pin_mode, digital_write, analog_write, output, low, high,
}

pub record Motor : Type 0 where
  pub enl : ℕ
  pub enr : ℕ
  pub pwml : ℕ
  pub pwmr : ℕ
  pub invert : ℕ
  pub setpoint : ℤ
  pub error : ℤ
  pub clampl : ℤ
  pub clamph : ℤ

-- `IBT2Motor::enable`
unfoldable pub enable : Motor → List Call
enable m = digital_write m.enl high ∷ digital_write m.enr high ∷ []

-- `IBT2Motor::disable`
unfoldable pub disable : Motor → List Call
disable m = digital_write m.enl low ∷ digital_write m.enr low ∷ []

-- The fields that the constructor sets.
unfoldable pub init : ℕ → ℕ → ℕ → ℕ → ℕ → Motor
init enl enr pwml pwmr invert = record {
  enl = enl;
  enr = enr;
  pwml = pwml;
  pwmr = pwmr;
  invert = invert;
  setpoint = pos 0;
  error = pos 0;
  clampl = pos 0;
  clamph = pos 0;
}

-- The calls that the constructor makes.
unfoldable pub init_pins : Motor → List Call
unfolding disable
init_pins m =
    pin_mode m.pwml output
    ∷ pin_mode m.pwmr output
    ∷ pin_mode m.enl output
    ∷ pin_mode m.enr output
    ∷ disable m

-- `if (x < lo) x = lo;`
abbrev pub at_least : ℤ → ℤ → ℤ
at_least lo x = if ltb_ℤ x lo then lo else x

-- `if (x > hi) x = hi;`
abbrev pub at_most : ℤ → ℤ → ℤ
at_most hi x = if ltb_ℤ hi x then hi else x

-- `IBT2Motor::clamp`
unfoldable pub clamp : ℤ → ℤ → Motor → Motor
clamp clampl clamph m = record m {
  clampl = at_most (pos 0) (at_least (negsuc 511) clampl);
  clamph = at_least (pos 0) (at_most (pos 511) clamph);
}

-- `IBT2Motor::update`
unfoldable pub update : ℤ → Motor → Motor
update setpoint m = record m { setpoint = at_most (pos 511) (at_least (negsuc 511) setpoint) }

-- `IBT2Motor::drive`. The idle side is switched off first.
unfoldable pub drive : ℤ → Motor → List Call
drive error m =
    if ltb_ℤ error (pos 0)
    then (let pwm = at_most (pos 255) (int16 (neg_ℤ error)) in
        analog_write m.pwmr (pos 0) ∷ analog_write m.pwml pwm ∷ [])
    else (let pwm = at_most (pos 255) error in
        analog_write m.pwml (pos 0) ∷ analog_write m.pwmr pwm ∷ [])

-- `_error` as `IBT2Motor::tick` leaves it.
unfoldable pub tick_error : Motor → ℤ
tick_error m =
    let e = if m.invert == 0 then m.setpoint else int16 (neg_ℤ m.setpoint) in
    at_most m.clamph (at_least m.clampl e)

-- `IBT2Motor::tick`
unfoldable pub tick : Motor → Motor × List Call
unfolding tick_error
tick m = let e = tick_error m in (record m { error = e }, drive (quot e 2) m)
