-- ===== src/Papilio/Xc3s.antt =====
-- papilio-prog/progalgxc3s.cpp: the programming of an FPGA. What an operation asks of the chain of
-- devices is a list of steps; what the chain captures for a step that reads is an argument.
-- Measuring of time and messages are left out.
pub mod Status
pub mod Configures
mod Tests
use pi_industrial_robottools.Base.{
  ℕ, zero, suc, ◌+◌, ◌*◌, ◌/◌, ◌%◌, ◌<◌, Bool, true, false, not, ◌||◌, ◌&&◌, List, [], ◌∷◌, ◌++◌,
  Option, none, some, ltb, leb, ◌==◌, if◌then◌else◌, drop, bit_and,
}

-- A shift of an instruction or of so many bits of data, with whether it reads, a wait in the idle
-- state for so many clocks, and one for so many microseconds.
pub data Step : Type 0 where
  shift_ir : ℕ → Bool → Step
  shift_dr : List ℕ → ℕ → Bool → Step
  cycle_tck : ℕ → Step
  usleep : ℕ → Step

abbrev pub jprogram : ℕ
jprogram = 0x0b

abbrev pub cfg_in : ℕ
cfg_in = 0x05

abbrev pub cfg_out : ℕ
cfg_out = 0x04

abbrev pub jshutdown : ℕ
jshutdown = 0x0d

abbrev pub jstart : ℕ
jstart = 0x0c

abbrev pub isc_program : ℕ
isc_program = 0x11

abbrev pub isc_dna : ℕ
isc_dna = 0x31

abbrev pub isc_enable : ℕ
isc_enable = 0x10

abbrev pub isc_disable : ℕ
isc_disable = 0x16

abbrev pub bypass : ℕ
bypass = 0x3f

abbrev pub write_ir : ℕ → Step
write_ir i = Step.shift_ir i false

pub record ProgAlgXc3s : Type 0 where
  pub family : ℕ
  pub tck_len : ℕ
  pub array_transfer_len : ℕ

-- The constructor.
unfoldable pub init : ℕ → ProgAlgXc3s
init fam =
    if (fam == 0x0e) || (fam == 0x11) || (fam == 0x13) || (fam == 0x1c) || (fam == 0x20)
    then record { family = fam; tck_len = 16; array_transfer_len = 16 }
    else record { family = fam; tck_len = 12; array_transfer_len = 64 }

unfoldable pub flow_enable : ProgAlgXc3s → List Step
flow_enable p = write_ir isc_enable ∷ Step.shift_dr (0 ∷ []) 5 false ∷ Step.cycle_tck p.tck_len ∷ []

unfoldable pub flow_disable : ProgAlgXc3s → List Step
flow_disable p =
    write_ir isc_disable
    ∷ Step.cycle_tck p.tck_len
    ∷ write_ir bypass
    ∷ Step.shift_dr (0 ∷ []) 1 false
    ∷ Step.cycle_tck 1
    ∷ []

-- The loop of `flow_array_program` from the bit `i` on, with fuel for its rounds.
unfoldable pub array_rounds : ℕ → ℕ → List ℕ → ℕ → ProgAlgXc3s → List Step
array_rounds zero i bytes len p = []
array_rounds (suc fuel) i bytes len p =
    let rest = array_rounds fuel (i + p.array_transfer_len) bytes len p in
    if ltb i len
    then write_ir isc_program
      ∷ Step.shift_dr (drop (i / 8) bytes) p.array_transfer_len false
      ∷ Step.cycle_tck 1
      ∷ rest
    else []

-- `flow_array_program`: no round has less than a bit.
unfoldable pub flow_array_program : List ℕ → ℕ → ProgAlgXc3s → List Step
flow_array_program bytes len p = array_rounds len 0 bytes len p

unfoldable pub flow_program_legacy : List ℕ → ℕ → ProgAlgXc3s → List Step
flow_program_legacy bytes len p =
    write_ir jshutdown
    ∷ Step.cycle_tck p.tck_len
    ∷ write_ir cfg_in
    ∷ Step.shift_dr bytes len false
    ∷ Step.cycle_tck 1
    ∷ write_ir jstart
    ∷ Step.cycle_tck (2 * p.tck_len)
    ∷ write_ir bypass
    ∷ Step.shift_dr (0 ∷ []) 1 false
    ∷ Step.cycle_tck 1
    ∷ []

-- `buf[0] & 0x10`, and `(buf[0] & 0x23) == 0x21`.
abbrev pub is_cleared : ℕ → Bool
is_cleared b = not (bit_and b 0x10 == 0)

abbrev pub is_up : ℕ → Bool
is_up b = bit_and b 0x23 == 0x21

-- The wait until the configuration is cleared, from the read `i` on: the steps, and the last byte
-- that was read. `none` when it has not ended after so many reads.
unfoldable pub wait_cleared : ℕ → (ℕ → ℕ) → ℕ → Option (List Step × ℕ)
wait_cleared zero reads i = none
wait_cleared (suc fuel) reads i =
    let rest = wait_cleared fuel reads (suc i) in
    if is_cleared (reads i)
    then some (Step.shift_ir cfg_in true ∷ [], reads i)
    else elim rest [ none ↦ none | some (steps, b) ↦ some (Step.shift_ir cfg_in true ∷ steps, b) ]

-- The wait until the device comes up, with the byte read last, `i`, and the reads that are left: the
-- steps, and `i` afterwards.
unfoldable pub wait_up : ℕ → (ℕ → ℕ) → ℕ → ℕ → List Step × ℕ
wait_up zero reads b i = ([], i)
wait_up (suc left) reads b i =
    let rest = wait_up left reads (reads i) (suc i) in
    if is_up b then ([], i) else (Step.shift_ir bypass true ∷ Step.usleep 1_000 ∷ rest.0, rest.1)

-- The read of the identification, for the families that have it.
abbrev pub read_dna : ProgAlgXc3s → List Step
read_dna p =
    if (p.family == 0x11) || (p.family == 0x13) || (p.family == 0x1c) || (p.family == 0x20)
    then write_ir isc_enable ∷ write_ir isc_dna ∷ Step.shift_dr [] 64 true ∷ Step.cycle_tck 1 ∷ []
    else []

-- The steps of `array_program`, with those of its two waits.
abbrev pub all_steps : List Step → List Step → List ℕ → ℕ → ProgAlgXc3s → List Step
all_steps waits ups bytes len p =
    flow_enable p
    ++ (write_ir jprogram
        ∷ (waits ++ (read_dna p ++ (flow_program_legacy bytes len p ++ (flow_disable p ++ ups)))))

-- `array_program`: the steps, and whether it says that the device failed to configure.
unfoldable pub array_program :
    ℕ → (ℕ → ℕ) → (ℕ → ℕ) → List ℕ → ℕ → ProgAlgXc3s → Option (List Step × Bool)
array_program fuel clears ups bytes len p = elim (wait_cleared fuel clears 0) [
  | none ↦ none
  | some (waits, b) ↦
      let up = wait_up 50 ups b 0 in some (all_steps waits up.0 bytes len p, up.1 == 50)
]

abbrev pub xc3s_words : List ℕ
xc3s_words = 0xff ∷ 0xff ∷ 0x55 ∷ 0x99 ∷ 0x0c ∷ 0x85 ∷ 0x00 ∷ 0x70 ∷ 0x04 ∷ 0x00 ∷ 0x04 ∷ 0x00 ∷ []

abbrev pub xc6s_words : List ℕ
xc6s_words = 0xff ∷ 0xff ∷ 0x55 ∷ 0x99 ∷ 0xaa ∷ 0x66 ∷ 0x0c ∷ 0x85 ∷ 0x00 ∷ 0x70 ∷ 0x04 ∷ 0x00 ∷ []

-- `Reconfigure`, which does nothing for other families.
unfoldable pub reconfigure : ProgAlgXc3s → List Step
reconfigure p =
    if (p.family == 0x0e) || (p.family == 0x11) || (p.family == 0x13) || (p.family == 0x20)
    then write_ir jshutdown
      ∷ Step.cycle_tck 16
      ∷ write_ir cfg_in
      ∷ Step.shift_dr (if p.family == 0x20 then xc6s_words else xc3s_words) 96 false
      ∷ write_ir jstart
      ∷ Step.cycle_tck 32
      ∷ write_ir bypass
      ∷ Step.cycle_tck 1
      ∷ []
    else []
