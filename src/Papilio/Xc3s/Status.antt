-- ===== src/Papilio/Xc3s/Status.antt =====
-- papilio-prog/progalgxc3s.cpp: `DisplayStatus` and `getStatusRegister`, with what they print.
use pi_industrial_robottools.Base.{
  ℕ, Bool, true, false, not, ◌||◌, List, [], ◌∷◌, ◌==◌, map, get_or, bit_and,
}
use pi_industrial_robottools.Papilio.BitFile.Flip.{b_rev_table}
use pi_industrial_robottools.Papilio.Xc3s.{Step, write_ir, cfg_in, cfg_out, bypass}

-- `b & mask`, as a truth value.
abbrev pub has : ℕ → ℕ → Bool
has b mask = not (bit_and b mask == 0)

pub record Capture : Type 0 where
  pub compatible : Bool
  pub isc_done : Bool
  pub isc_enabled : Bool
  pub house_cleaning : Bool
  pub done : Bool

-- `DisplayStatus`, for the byte that is captured.
unfoldable pub display_status : ℕ → List Step × Capture
display_status b = (
  Step.shift_ir bypass true ∷ [],
  record {
    compatible = bit_and b 0x3 == 0x01;
    isc_done = has b 0x4;
    isc_enabled = has b 0x8;
    house_cleaning = has b 0x10;
    done = has b 0x20;
  },
)

abbrev pub flip : ℕ → ℕ
flip b = get_or b_rev_table b 0

abbrev pub request : List ℕ
request =
    0xff ∷ 0xff ∷ 0xff ∷ 0xff ∷ 0xaa ∷ 0x99 ∷ 0x55 ∷ 0x66 ∷ 0x28 ∷ 0x00 ∷ 0xe0 ∷ 0x02 ∷ 0x00 ∷ 0x00
    ∷ 0x00 ∷ 0x00 ∷ 0x30 ∷ 0x00 ∷ 0x80 ∷ 0x01 ∷ 0x00 ∷ 0x00 ∷ 0x00 ∷ 0x07 ∷ 0x00 ∷ 0x00 ∷ 0x00
    ∷ 0x00 ∷ []

pub record Register : Type 0 where
  pub unexpected : Bool
  pub id_error : Bool
  pub done : Bool
  pub init : Bool
  pub mode2 : Bool
  pub mode1 : Bool
  pub mode0 : Bool
  pub ghigh : Bool
  pub gwe : Bool
  pub gts_cfg : Bool
  pub in_error : Bool
  pub dci_match : Bool
  pub dcm_lock : Bool
  pub crc_error : Bool

-- What is printed of the four bytes of the register.
abbrev pub decode : List ℕ → Register
decode tdo = record {
  unexpected = has (get_or tdo 0 0) 0xff || has (get_or tdo 1 0) 0xff || has (get_or tdo 2 0) 0xc0;
  id_error = has (get_or tdo 2 0) 0x20;
  done = has (get_or tdo 2 0) 0x10;
  init = has (get_or tdo 2 0) 0x08;
  mode2 = has (get_or tdo 2 0) 0x04;
  mode1 = has (get_or tdo 2 0) 0x02;
  mode0 = has (get_or tdo 2 0) 0x01;
  ghigh = has (get_or tdo 3 0) 0x80;
  gwe = has (get_or tdo 3 0) 0x40;
  gts_cfg = has (get_or tdo 3 0) 0x20;
  in_error = has (get_or tdo 3 0) 0x10;
  dci_match = has (get_or tdo 3 0) 0x08;
  dcm_lock = has (get_or tdo 3 0) 0x04;
  crc_error = has (get_or tdo 3 0) 0x01;
}

-- `getStatusRegister`, for the four bytes that are read.
unfoldable pub get_status_register : List ℕ → List Step × Register
get_status_register tdo = (
  write_ir cfg_in
      ∷ Step.shift_dr (map flip request) 224 false
      ∷ Step.shift_ir cfg_out true
      ∷ Step.shift_dr (map flip request) 32 true
      ∷ write_ir bypass
      ∷ Step.cycle_tck 12
      ∷ [],
  decode (map flip tdo),
)
