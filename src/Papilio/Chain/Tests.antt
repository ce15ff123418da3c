-- ===== src/Papilio/Chain/Tests.antt =====
-- Runs on a chain of two devices: papilio-prog/jtag.cpp.
use pi_industrial_robottools.Base.{ℕ, zero, suc, ◌≡◌, ◌≢◌, refl, arith, List, [], ◌∷◌, length}
use pi_industrial_robottools.Base.Int.{pos}
use pi_industrial_robottools.Papilio.Tap.{test_logic_reset, exit1_dr, unknown}
use pi_industrial_robottools.Papilio.IoBase
use pi_industrial_robottools.Papilio.IoBase.{IoBase, Result}
use pi_industrial_robottools.Papilio.IoBase.Buffer.{IsValid}
use pi_industrial_robottools.Papilio.Chain
use pi_industrial_robottools.Papilio.Chain.{
  Jtag, Device, long_to_byte_array, byte_array_to_long, get_chain, dr_pre, align_pre,
  set_device_ir_length, select_device,
}
use pi_industrial_robottools.Papilio.Chain.Find.{Yields, found, Answers, get_chain-Yields}

abbrev two : List ℕ
two = 0x1c22093 ∷ 0x5046093 ∷ []

abbrev reads : ℕ → List ℕ
reads zero = long_to_byte_array 0x1c22093
reads (suc zero) = long_to_byte_array 0x5046093
reads (suc (suc n)) = 0 ∷ 0 ∷ 0 ∷ 0 ∷ []

reads-Answers : Answers reads 0 two
unfolding byte_array_to_long
reads-Answers = (refl, (refl, refl))

away : exit1_dr ≢ unknown
away e = cc

fresh-IsValid : IsValid IoBase.init
fresh-IsValid = record { fits = omega arith; clean = λ i h. refl }

get_chain-Yields_example :
    Yields exit1_dr
      (get_chain reads 7 (Chain.init 0) IoBase.init)
      (record (Chain.init 0) { num_devices = length two; devices = found 7 two [] })
      test_logic_reset
get_chain-Yields_example =
    get_chain-Yields two reads 7 (Chain.init 0) exit1_dr IoBase.init (omega arith)
      ((refl, omega arith), ((refl, omega arith), tt)) reads-Answers away fresh-IsValid
      (omega arith)

last_first :
    found 7 two []
    ≡ record { idcode = 0x5046093; irlen = 7 } ∷ record { idcode = 0x1c22093; irlen = 7 } ∷ []
last_first = refl

thirteen : dr_pre 16 3 (Chain.init 4) ≡ Result.ok 13
unfolding dr_pre align_pre
thirteen = refl

-- The middle one of three devices.
abbrev middle : Jtag
middle = record (Chain.init 3) { device_index = pos 1 }
