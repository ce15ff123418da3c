-- ===== src/Papilio/Butterfly/Main.antt =====
-- papilio-prog/butterfly.cpp: `main`. `getopt` is a library function: its results are a list. The
-- parts that `main` calls are an interface over the state `S` of the cable and the device behind it:
-- what each one returns, with `none` for an `io_exception`. A program that runs into the end of
-- `main` exits with 0.
use pi_industrial_robottools.Base.{
  ℕ, ◌/◌, ◌%◌, ◌^◌, Bool, true, false, not, ◌||◌, ◌&&◌, List, [], ◌∷◌, Option, none, some, ◌==◌,
  if◌then◌else◌, get_or,
}
use pi_industrial_robottools.Papilio.BitFile.{BitFile}
use pi_industrial_robottools.Papilio.Spi.Program.{SpiOptions}

pub data Opt : Type 0 where
  reconfigure : Opt
  stat_register : Opt
  status : Opt
  verbose : Opt
  detect_chain : Opt
  device_name : List ℕ → Opt
  fpga_file : List ℕ → Opt
  append_flipped : List ℕ → Opt
  append_plain : List ℕ → Opt
  bscan_file : List ℕ → Opt
  spi : List ℕ → Opt
  other : Opt

-- The variables of `main`. `displaystatus` is 1 for the instruction register, 2 for STAT.
pub record Options : Type 0 where
  pub reconfigure : Bool
  pub detectchain : Bool
  pub displaystatus : ℕ
  pub fpga_fn : Option (List ℕ)
  pub bscan_fn : Option (List ℕ)
  pub append_str : Option (List ℕ × Bool)
  pub spi_options : SpiOptions

abbrev pub no_options : Options
no_options = record {
  reconfigure = false;
  detectchain = false;
  displaystatus = 0;
  fpga_fn = none;
  bscan_fn = none;
  append_str = none;
  spi_options = SpiOptions.full;
}

-- The argument of `-s`, by its first character.
abbrev pub spi_option : ℕ → Option SpiOptions
spi_option c =
    if (c == b'e') || (c == b'E')
    then some SpiOptions.erase_only
    else (if (c == b'p') || (c == b'P')
        then some SpiOptions.write_only
        else (if (c == b'v') || (c == b'V')
            then some SpiOptions.verify_only
            else (if (c == b'a') || (c == b'A') then some SpiOptions.full else none)))

abbrev pub with_spi : Option SpiOptions → Options → Option Options
with_spi none o = none
with_spi (some s) o = some (record o { spi_options = s })

-- `none` for an option that ends the program with the usage.
abbrev pub take_option : Opt → Options → Option Options
take_option Opt.reconfigure o = some (record o { reconfigure = true })
take_option Opt.stat_register o = some (record o { displaystatus = 2 })
take_option Opt.status o = some (record o { displaystatus = 1 })
take_option Opt.verbose o = some o
take_option Opt.detect_chain o = some (record o { detectchain = true })
take_option (Opt.device_name name) o = some o
take_option (Opt.fpga_file name) o = some (record o { fpga_fn = some name })
take_option (Opt.append_flipped str) o = some (record o { append_str = some (str, true) })
take_option (Opt.append_plain str) o = some (record o { append_str = some (str, false) })
take_option (Opt.bscan_file name) o = some (record o { bscan_fn = some name })
take_option (Opt.spi arg) o = with_spi (spi_option (get_or arg 0 0)) o
take_option Opt.other o = none

unfoldable pub read_options : List Opt → Options → Option Options
read_options [] o = some o
read_options (x ∷ xs) o = elim (take_option x o) [ none ↦ none | some p ↦ read_options xs p ]

pub record Parts (S : Type 0) : Type 0 where
  pub open_cable : ℕ → S → Option S
  pub get_id : S → ℕ × S
  pub display_status : S → S
  pub get_status_register : S → S
  pub read_file : Bool → List ℕ → Option BitFile
  pub append_data : BitFile → List ℕ × Bool → Option (BitFile × Bool)
  pub array_program : ℕ → BitFile → S → S
  pub program_spi : BitFile → SpiOptions → S → Option (Bool × S)
  pub erase_spi : S → Option (Bool × S)
  pub reconfigure : ℕ → S → S

abbrev pub erases_only : SpiOptions → Bool
erases_only SpiOptions.erase_only = true
erases_only _ = false

abbrev pub given {ℓ} : {A : Type ℓ} → Option A → Bool
given none = false
given (some _) = true

module _ {S : Type 0} (p : Parts S) where
  -- The file with what is to be appended: `none` for an exception, and false for a refusal.
  abbrev pub appended : Option (List ℕ × Bool) → BitFile → Option (BitFile × Bool)
  appended none f = some (f, true)
  appended (some str) f = p.append_data f str

  -- A file and what is appended to it, and what is done with it: 1 on a refusal or an exception.
  abbrev pub with_appended : Options → Option BitFile → S → (BitFile → ℕ × S) → ℕ × S
  with_appended o none s go = (1, s)
  with_appended o (some f) s go = elim (appended o.append_str f) [
    | none ↦ (1, s)
    | some (g, true) ↦ go g
    | some (g, false) ↦ (1, s)
  ]

  -- The result of the flash is printed and not returned.
  abbrev pub finish_flash : Bool → ℕ → S → Option (Bool × S) → ℕ × S
  finish_flash again family s none = (1, s)
  finish_flash again family s (some (result, s')) =
      (0, if again then p.reconfigure family s' else s')

  -- The branch with a flash: `bscan` gives access to it.
  unfoldable pub run_flash : ℕ → Options → List ℕ → S → ℕ × S
  run_flash family o bscan_fn s = elim (p.read_file true bscan_fn) [
    | none ↦ (1, s)
    | some bscan ↦
        let s1 = p.array_program family bscan s in
        if erases_only o.spi_options
        then finish_flash false family s1 (p.erase_spi s1)
        else elim o.fpga_fn [
          | none ↦ (1, s1)
          | some fn ↦
              with_appended o (p.read_file false fn) s1
                (λ f. finish_flash o.reconfigure family s1 (p.program_spi f o.spi_options s1))
        ]
  ]

  -- The branch without one.
  unfoldable pub run_fpga : ℕ → Options → S → ℕ × S
  run_fpga family o s = if o.reconfigure then (0, p.reconfigure family s) else elim o.fpga_fn [
    | none ↦ (1, s)
    | some fn ↦ with_appended o (p.read_file true fn) s (λ f. (0, p.array_program family f s))
  ]

  -- What follows `get_id`.
  unfoldable pub run_identified : Options → ℕ → S → ℕ × S
  run_identified o id s =
      let family = id / 2 ^ 21 % 2 ^ 7 in
      if id == 0
      then (1, s)
      else (if o.detectchain
          then (0, s)
          else (if o.displaystatus == 1
              then (0, p.display_status s)
              else (if o.displaystatus == 2 then (0, p.get_status_register s) else elim o.bscan_fn [
                | none ↦ run_fpga family o s
                | some bscan_fn ↦ run_flash family o bscan_fn s
              ])))

  -- The cable, or that of a Papilio DUO.
  abbrev pub open_any : S → Option S
  open_any s = elim (p.open_cable 0x6010 s) [ none ↦ p.open_cable 0x7bc0 s | some t ↦ some t ]

  -- Whether the options make sense: `none` for the usage, which exits with 255.
  unfoldable pub check_options : Options → Option Bool
  check_options o =
      if given o.bscan_fn
      then some (erases_only o.spi_options || given o.fpga_fn)
      else (if not (given o.fpga_fn)
            && (o.displaystatus == 0)
            && not o.detectchain
            && not o.reconfigure
          then none
          else some true)

  unfoldable pub run : Options → S → ℕ × S
  run o s = elim (check_options o) [
    | none ↦ (255, s)
    | some false ↦ (1, s)
    | some true ↦ elim (open_any s) [
      | none ↦ (1, s)
      | some t ↦ let (id, u) = p.get_id t in run_identified o id u
    ]
  ]

  unfoldable pub main : List Opt → S → ℕ × S
  main opts s = elim (read_options opts no_options) [ none ↦ (255, s) | some o ↦ run o s ]
