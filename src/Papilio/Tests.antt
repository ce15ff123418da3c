-- ===== src/Papilio/Tests.antt =====
-- Runs of the programmer's model on concrete inputs: papilio-prog.
use pi_industrial_robottools.Base.{◌≡◌, ◌≢◌, refl, ap, arith, inl, true, false, [], ◌∷◌, some, ◌==◌}
use pi_industrial_robottools.Papilio.Tap.{
  TapState, test_logic_reset, run_test_idle, shift_dr, exit1_dr, unknown, value,
}
use pi_industrial_robottools.Papilio.IoBase.{IoBase, read_bits, init, set_tap_state, shift_tdi_tdo}
use pi_industrial_robottools.Papilio.IoBase.Buffer.{IsValid}
use pi_industrial_robottools.Papilio.IoBase.InStep.{Keeps, set_tap_state-Keeps, shift_tdi_tdo-Keeps}

known : {s : TapState} → (value s == 999) ≡ false → s ≢ unknown
known {s} h e = let v : value s ≡ 999 = ap value e in ground (arith, h, v)

other : {s : TapState} → (value s == 0) ≡ false → s ≢ test_logic_reset
other {s} h e = let v : value s ≡ 0 = ap value e in ground (arith, h, v)

init-IsValid : IsValid init
init-IsValid = record { fits = omega arith; clean = λ i h. refl }

set_tap_state-Keeps_example : Keeps exit1_dr (set_tap_state shift_dr 0 init) shift_dr
set_tap_state-Keeps_example =
    set_tap_state-Keeps exit1_dr shift_dr 0 init (known refl) (known refl) init-IsValid
      (λ k. absurd (k refl)) (λ e. omega arith) (omega arith) (inl refl)

-- The cable in `SHIFT_DR` with an empty buffer, and a device that was there from the start.
abbrev shifting : IoBase
shifting = record { current_state = shift_dr; tms_buf = λ i. false; tms_len = 0; out = [] }

shifting-IsValid : IsValid shifting
shifting-IsValid = record { fits = omega arith; clean = λ i h. refl }

shift_tdi_tdo-Keeps_example :
    Keeps shift_dr (shift_tdi_tdo (some (5 ∷ [])) true 8 true shifting) exit1_dr
unfolding read_bits
shift_tdi_tdo-Keeps_example =
    shift_tdi_tdo-Keeps shift_dr (some (5 ∷ [])) true 7 true shifting (inl refl) (λ k. refl)

abbrev idle : IoBase
idle = record { current_state = run_test_idle; tms_buf = λ i. false; tms_len = 0; out = [] }
