-- ===== src/Controller/Can/Digits.antt =====
-- Hexadecimal digits of arduino/slcan_controller/SLCan.cpp.
use pi_industrial_robottools.Base.{ℕ, ◌+◌, ◌*◌, ◌<◌, ◌≡◌, ◌≢◌, arith, List, get_or}
use pi_industrial_robottools.Base.Bits.{bit_or_nibbles}
use pi_industrial_robottools.Controller.Can.{hex_to_dec, hex_digit, hex_byte}

pub hex_to_dec-lt : (c : ℕ) → hex_to_dec c < 16
unfolding hex_to_dec
hex_to_dec-lt c = ground arith

pub hex_to_dec-hex_digit : (d : ℕ) → d < 16 → hex_to_dec (hex_digit d) ≡ d
unfolding hex_to_dec hex_digit
hex_to_dec-hex_digit d h = ground arith

-- A digit is never a carriage return.
pub hex_digit-ne_cr : (d : ℕ) → hex_digit d ≢ 13
unfolding hex_digit
hex_digit-ne_cr d = ground arith

pub hex_byte_eq :
    (rx : List ℕ) (i : ℕ)
    → hex_byte rx i ≡ hex_to_dec (get_or rx i 0) * 16 + hex_to_dec (get_or rx (i + 1) 0)
unfolding hex_byte
hex_byte_eq rx i =
    bit_or_nibbles (hex_to_dec (get_or rx i 0)) (hex_to_dec (get_or rx (i + 1) 0))
      (hex_to_dec-lt (get_or rx (i + 1) 0))
