-- ===== src/Papilio/Ftdi/Tests.antt =====
-- Examples for papilio-prog/ioftdi.cpp.
use pi_industrial_robottools.Base.{ℕ, refl, arith, true, List, [], ◌∷◌, ◌++◌, some, length}
use pi_industrial_robottools.Papilio.Ftdi.{Usb, Ftdi, tx_tms}
use pi_industrial_robottools.Papilio.Ftdi.Block.{txrx_block}
use pi_industrial_robottools.Papilio.Ftdi.Engine.{idle}
use pi_industrial_robottools.Papilio.Ftdi.Emits.{Accepts, Emits}
use pi_industrial_robottools.Papilio.Ftdi.Emits.Tms.{tms_pulses, tx_tms-Emits}
use pi_industrial_robottools.Papilio.Ftdi.Emits.Whole.{block_pulses, txrx_block-Emits}

-- A chip that keeps what is written to it, and reads one byte at a time.
abbrev usb : Usb (List ℕ)
usb = record { write = λ bs s. (s ++ bs, length bs); read = λ n s. (s, 0x5a ∷ [], 0) }

abbrev all : List ℕ → List ℕ
all s = s

usb-Accepts : Accepts usb all
usb-Accepts = record {
  written = λ bs s. refl;
  grows = λ bs s. refl;
  keeps = λ n s. refl;
  no_error = λ n s. refl;
}

-- A cable with some bytes that are not sent yet.
abbrev cable : Ftdi (List ℕ)
cable = record { usbuf = 0x87 ∷ []; device = 0x87 ∷ 0x87 ∷ [] }

tx_tms-Emits_example :
    Emits usb all
      (λ c. c)
      (λ c. Unit)
      cable
      (tx_tms usb (0xb5 ∷ 0x02 ∷ []) 10 cable)
      idle
      (tms_pulses (0xb5 ∷ 0x02 ∷ []) 0 10)
      idle
tx_tms-Emits_example = tx_tms-Emits usb all usb-Accepts (0xb5 ∷ 0x02 ∷ []) 10 cable (omega arith)

txrx_block-Emits_example :
    Emits usb all
      (λ r. r.0)
      (λ r. Unit)
      cable
      (txrx_block usb (some (0xb5 ∷ 0x02 ∷ [])) true 11 true cable)
      idle
      (block_pulses (some (0xb5 ∷ 0x02 ∷ [])) 11 true)
      idle
txrx_block-Emits_example =
    txrx_block-Emits usb all usb-Accepts (some (0xb5 ∷ 0x02 ∷ [])) true true 11 cable refl
      (omega arith) (omega arith) (omega arith)
