-- ===== src/Papilio/Chain/Shift.antt =====
-- `Jtag::shiftDR` of papilio-prog/jtag.cpp as a whole: where it leaves the cable and the device.
use pi_industrial_robottools.Base.{ℕ}
use pi_industrial_robottools.Papilio.IoBase.{IoBase, Result}
use Result.{ok, fault, stuck}
use pi_industrial_robottools.Papilio.IoBase.InStep.{InStep}

-- The bits in the buffer that a call leaves.
abbrev bits_left : Result IoBase → ℕ
bits_left (ok io) = io.tms_len
bits_left fault = 0
bits_left stuck = 0
