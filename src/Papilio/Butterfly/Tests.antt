-- ===== src/Papilio/Butterfly/Tests.antt =====
-- Examples for `append_data` of papilio-prog/butterfly.cpp.
use pi_industrial_robottools.Base.{
  ℕ, ◌+◌, ◌≡◌, ◌≢◌, refl, arith, Bool, true, false, not, List, [], ◌∷◌, none, some, Option, map,
  ◌==◌, if◌then◌else◌,
}
use pi_industrial_robottools.Papilio.BitFile.{BitFile, flipped}
use pi_industrial_robottools.Papilio.Butterfly.{read_address, append_data}
use pi_industrial_robottools.Papilio.Butterfly.Append.{Appended, append_data-Appended}
use pi_industrial_robottools.Papilio.Butterfly.Main.{
  Opt, Options, Parts, no_options, read_options, check_options, open_any, run_flash, run_identified,
  run, main,
}
use pi_industrial_robottools.Papilio.Butterfly.Outcome.{run_identifies, claiming, main-claiming}

abbrev three_bytes : BitFile
three_bytes = record {
  ncd_filename = [];
  part_name = [];
  date = [];
  time = [];
  size = 3;
  buffer = some 1 ∷ some 2 ∷ some 3 ∷ [];
}

-- "1a:x"
abbrev at_26 : List ℕ
at_26 = b'1' ∷ b'a' ∷ b':' ∷ b'x' ∷ []

abbrev files : List ℕ → Option (List ℕ)
files _ = some (0x80 ∷ 0x01 ∷ [])

read_26 : read_address at_26 0 ≡ some (26, b'x' ∷ [])
unfolding read_address
read_26 = refl

append_data-Appended_example :
    Appended three_bytes 26
      (map (flipped false) (0x80 ∷ 0x01 ∷ []))
      (append_data files at_26 false three_bytes)
append_data-Appended_example =
    append_data-Appended files at_26 (b'x' ∷ []) (0x80 ∷ 0x01 ∷ []) 26 false three_bytes read_26
      refl refl (omega arith) (omega arith)

-- Parts with a counter of the uploads for the device: a flash that fails.
abbrev parts : Parts ℕ
parts = record {
  open_cable = λ product s. if product == 0x6010 then none else some s;
  get_id = λ s. (0x02218093, s);
  display_status = λ s. s;
  get_status_register = λ s. s;
  read_file = λ flip name. some three_bytes;
  append_data = λ f str. some (f, true);
  array_program = λ family f s. s + 1;
  program_spi = λ f o s. some (false, s);
  erase_spi = λ s. some (true, s);
  reconfigure = λ family s. s;
}

abbrev flash : Options
flash = record no_options { bscan_fn = some (b'b' ∷ []); fpga_fn = some (b'f' ∷ []) }

flashes : (run parts flash 0).0 ≡ 0
unfolding run check_options run_identified run_flash
flashes = refl

-- "-b b -f f"
from_options : main parts (Opt.bscan_file (b'b' ∷ []) ∷ Opt.fpga_file (b'f' ∷ []) ∷ []) 0 ≡ (0, 1)
unfolding main read_options run check_options run_identified run_flash
from_options = refl

run_identifies_example : (t : ℕ) × (open_any parts 0 ≡ some t) × ((parts.get_id t).0 ≢ 0)
run_identifies_example = run_identifies parts flash 0 flashes

abbrev denied : Bool → ℕ → Bool
denied result s = not result

-- "-b b -f f -r", with the result of the programming turned round.
main-claiming_example :
    main
      (claiming parts denied)
      (Opt.bscan_file (b'b' ∷ []) ∷ Opt.fpga_file (b'f' ∷ []) ∷ Opt.reconfigure ∷ [])
      0
    ≡ main parts (Opt.bscan_file (b'b' ∷ []) ∷ Opt.fpga_file (b'f' ∷ []) ∷ Opt.reconfigure ∷ []) 0
main-claiming_example =
    main-claiming parts denied
      (Opt.bscan_file (b'b' ∷ []) ∷ Opt.fpga_file (b'f' ∷ []) ∷ Opt.reconfigure ∷ []) 0
