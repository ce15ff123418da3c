-- ===== src/Svf/Main.antt =====
-- svfload/svfload.c: `main`. `getopt` is a library function: its results are a list. `files` says
-- what opening, checking and mapping a file gives, and `is_aml` whether the device tree's model
-- names the board aml-s905x-cc.
use pi_industrial_robottools.Base.{
  ℕ, Bool, true, false, not, ◌||◌, List, [], ◌∷◌, Option, none, some, if◌then◌else◌,
}
use pi_industrial_robottools.Base.Int.{ℤ, pos}
use pi_industrial_robottools.Svf.Gpio.{Req, Wiring, default_wiring, aml_s905x_cc_wiring}
use pi_industrial_robottools.Svf.Player.{Args}
use pi_industrial_robottools.Svf.Program.{Machine, main_analyze, main_idcode, main_play}

-- The board that `main` finds.
abbrev pub board_wiring : Bool → Wiring
board_wiring is_aml = if is_aml then aml_s905x_cc_wiring else default_wiring

pub data Opt : Type 0 where
  help : Opt
  analyze : Opt
  idcode : Opt
  play : Opt
  svf_file : List ℕ → Opt
  device : List ℕ → Opt
  unrecognized : Opt

-- The flags: whether each is above 0. `nothing` is 1 until an action is asked for.
pub record Options : Type 0 where
  pub help : Bool
  pub nothing : Bool
  pub analyze : Bool
  pub idcode : Bool
  pub play : Bool
  pub svf_file_name : Option (List ℕ)

abbrev pub no_options : Options
no_options = record {
  help = false;
  nothing = true;
  analyze = false;
  idcode = false;
  play = false;
  svf_file_name = none;
}

abbrev pub take_option : Opt → Options → Option Options
take_option Opt.help o = some (record o { help = true })
take_option Opt.analyze o = some (record o { nothing = false; analyze = true })
take_option Opt.idcode o = some (record o { nothing = false; idcode = true })
take_option Opt.play o = some (record o { nothing = false; play = true })
take_option (Opt.svf_file name) o = some (record o { svf_file_name = some name })
take_option (Opt.device name) o = some o
take_option Opt.unrecognized o = none

-- The loop over the options: `none` when an option that is not known ends the program with the
-- usage.
unfoldable pub read_options : List Opt → Options → Option Options
read_options [] o = some o
read_options (x ∷ xs) o = elim (take_option x o) [ none ↦ none | some p ↦ read_options xs p ]

-- How the program ends: with the usage and 0, with an error and 1, or with what an action returns.
pub data Exit : Type 0 where
  usage : Exit
  error : Exit
  acted : Option (ℤ × Args) → Exit

abbrev pub empty_req : Req
empty_req = record {
  tms_val = pos 0;
  tdi_val = pos 0;
  tdo_val = pos 0;
  tck_cnt = 0;
  tms_fd = 0;
  tdi_fd = 0;
  tdo_fd = 0;
  tck_fd = 0;
}

-- `svf_args`, with the mapped file.
abbrev pub start : List ℕ → Args
start bytes = record {
  svf_data = bytes;
  svf_data_ptr = 0;
  idcode = 0;
  tck_total = 0;
  tck_count = 0;
  tck_step = 0;
  tck_compare = 0;
  kreq = empty_req;
  log = [];
  printed = [];
}

-- `none` for a file that cannot be opened or mapped; without a name nothing is mapped.
abbrev pub map_file : (List ℕ → Option (List ℕ)) → Option (List ℕ) → Option (List ℕ)
map_file files none = some []
map_file files (some name) = files name

abbrev pub named : Option (List ℕ) → Bool
named none = false
named (some _) = true

-- What `main` does with the options once the file is mapped.
unfoldable pub act : Machine → Options → Args → Exit
act m o args =
    if o.analyze
    then (if o.idcode || not (named o.svf_file_name)
        then Exit.error
        else Exit.acted (main_analyze m args))
    else (if o.idcode
        then Exit.acted (main_idcode m args)
        else (if o.play
            then (if named o.svf_file_name then Exit.acted (main_play m args) else Exit.error)
            else Exit.error))

unfoldable pub main : Machine → Bool → (List ℕ → Option (List ℕ)) → List Opt → Exit
main m is_aml files opts = elim (read_options opts no_options) [
  | none ↦ Exit.usage
  | some o ↦ if o.help || o.nothing then Exit.usage else elim (map_file files o.svf_file_name) [
    | none ↦ Exit.error
    | some bytes ↦ act (record m { wiring = board_wiring is_aml }) o (start bytes)
  ]
]
