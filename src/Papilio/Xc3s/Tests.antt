-- ===== src/Papilio/Xc3s/Tests.antt =====
-- Runs of the model of FPGA programming on concrete inputs: progalgxc3s.cpp.
use pi_industrial_robottools.Base.{
  ℕ, ◌≡◌, ◌↔◌, ◌<◌, refl, arith, Bool, false, List, [], ◌∷◌, some, ◌==◌, if◌then◌else◌, map,
}
use pi_industrial_robottools.Papilio.Xc3s.{
  Step, ProgAlgXc3s, init, write_ir, array_program, flow_array_program, array_rounds, wait_up,
  is_up, xc6s_words,
}
use pi_industrial_robottools.Papilio.Xc3s.Status.{flip}
use pi_industrial_robottools.Papilio.Xc3s.Configures.{
  Fpga, take_steps, configured, array_program_configures, wait_up_iff,
}

abbrev spartan : ProgAlgXc3s
spartan = record { family = 0x11; tck_len = 16; array_transfer_len = 16 }

made : init 0x11 ≡ spartan
unfolding init
made = refl

abbrev blank : Fpga
blank = record { ir = 0; cleared = false; loaded = []; started = 0 }

-- The third read says that the memory is cleared.
abbrev clears : ℕ → ℕ
clears i = if i == 2 then 0x11 else 0x01

abbrev ups : ℕ → ℕ
ups i = if i == 49 then 0x21 else 0x01

array_program_configures_example :
    (steps : List Step) × (gives_up : Bool) × (array_program 10 clears ups (1 ∷ 2 ∷ []) 16 spartan
      ≡ some (steps, gives_up))
    × (take_steps steps blank ≡ configured (1 ∷ 2 ∷ []) 16 spartan)
array_program_configures_example =
    array_program_configures 10 clears ups (1 ∷ 2 ∷ []) 16 spartan blank 2 (omega arith) refl

wait_up_iff_example :
    ((wait_up 50 ups 0x01 0).1 ≡ 50)
    ↔ ((is_up 0x01 ≡ false) × ((k : ℕ) → k < 49 → is_up (ups k) ≡ false))
wait_up_iff_example = wait_up_iff ups 0x01

-- The last read says that the device is up, and the wait gives up.
late : (wait_up 50 ups 0x01 0).1 ≡ 50
unfolding wait_up
late = refl

rounds :
    flow_array_program (1 ∷ 2 ∷ 3 ∷ 4 ∷ []) 32 spartan
    ≡ write_ir 0x11
      ∷ Step.shift_dr (1 ∷ 2 ∷ 3 ∷ 4 ∷ []) 16 false
      ∷ Step.cycle_tck 1
      ∷ write_ir 0x11
      ∷ Step.shift_dr (3 ∷ 4 ∷ []) 16 false
      ∷ Step.cycle_tck 1
      ∷ []
unfolding flow_array_program array_rounds
rounds = refl

-- The words of the comment in `Reconfigure`, bit by bit the other way round.
words :
    map flip
      (0xff ∷ 0xff ∷ 0xaa ∷ 0x99 ∷ 0x55 ∷ 0x66 ∷ 0x30 ∷ 0xa1 ∷ 0x00 ∷ 0x0e ∷ 0x20 ∷ 0x00 ∷ [])
    ≡ xc6s_words
words = refl
