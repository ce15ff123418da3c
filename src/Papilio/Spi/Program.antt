-- ===== src/Papilio/Spi/Program.antt =====
-- `EraseSpi` and `ProgramSpi` of papilio-prog/progalgspi.cpp. An instruction that `shiftIR` shifts in
-- is a step of the hardware, `shift_ir`.
pub mod Verified
use pi_industrial_robottools.Base.{
  ℕ, suc, ◌+◌, ◌*◌, ◌/◌, Bool, true, false, not, ◌&&◌, ◌||◌, List, map, ltb, if◌then◌else◌,
  replicate,
}
use pi_industrial_robottools.Papilio.BitFile.{BitFile, cell_value}
use pi_industrial_robottools.Papilio.Spi.{Spi, spi_check}
use pi_industrial_robottools.Papilio.Spi.Identify.{spi_identify}
use pi_industrial_robottools.Papilio.Spi.Erase.{spi_erase, spi_partial_erase}
use pi_industrial_robottools.Papilio.Spi.Write.{spi_write}
use pi_industrial_robottools.Papilio.Spi.Verify.{spi_verify}

-- `Spi_Options_t`
pub data SpiOptions : Type 0 where
  erase_only verify_only write_only full : SpiOptions

abbrev pub is_full : SpiOptions → Bool
is_full SpiOptions.full = true
is_full _ = false

abbrev pub writes : SpiOptions → Bool
writes SpiOptions.full = true
writes SpiOptions.write_only = true
writes _ = false

abbrev pub verifies : SpiOptions → Bool
verifies SpiOptions.full = true
verifies SpiOptions.verify_only = true
verifies _ = false

-- The instructions of the FPGA.
abbrev pub user1 : ℕ
user1 = 0x02

abbrev pub jprogram : ℕ
jprogram = 0x0b

abbrev pub bypass : ℕ
bypass = 0x3f

-- `if(test) if(!call) return false;`
abbrev pub step_if : {S : Type 0} → Bool → (S → S × Bool) → S × Bool → S × Bool
step_if test call r = if test && r.1 then call r.0 else r

-- What follows once every step before it has held.
abbrev pub then_if : {S : Type 0} → (S → S) → S × Bool → S × Bool
then_if f r = if r.1 then (f r.0, true) else r

module _ {S : Type 0} (shift : List ℕ → S → S × List ℕ) (shift_ir : ℕ → S → S) where
  -- `!Spi_Identify(true) && !Spi_Check(true)`: the check is made only of a flash that is not known.
  unfoldable pub unusable : Spi → S → Spi × S × Bool
  unusable p s =
      let i = spi_identify shift p s in
      let c = spi_check shift i.0 i.1 in if i.2 then (i.0, i.1, false) else (i.0, c.0, not c.1)

  -- `EraseSpi`
  unfoldable pub erase_spi : Spi → S → Spi × S × Bool
  erase_spi p s =
      let u = unusable p (shift_ir user1 s) in
      let len = u.0.page_size * u.0.pages in
      let e = spi_erase shift u.0 u.1 in
      let v = step_if true (spi_verify shift (replicate len 0xff) (8 * len) u.0) e in
      let r = if u.2 then (u.1, false) else then_if (shift_ir bypass) v in (u.0, r.0, r.1)

  -- The steps of `ProgramSpi` in front of the comparison, for a file that fits: `bytes` are its bytes.
  unfoldable pub write_steps : ℕ → SpiOptions → List ℕ → ℕ → Spi → S → S × Bool
  write_steps past options bytes length p s =
      let empty = replicate (length / 8 + 1) 0xff in
      let r = step_if (is_full options) (spi_partial_erase shift length p) (s, true) in
      let r = step_if (is_full options) (spi_verify shift empty length p) r in
      step_if (writes options) (spi_write shift past bytes length p) r

  -- All steps.
  unfoldable pub program_steps : ℕ → SpiOptions → List ℕ → ℕ → Spi → S → S × Bool
  program_steps past options bytes length p s =
      let w = write_steps past options bytes length p s in
      let r = step_if (verifies options) (spi_verify shift bytes length p) w in
      then_if (λ s'. shift_ir bypass (if is_full options then shift_ir jprogram s' else s')) r

  -- `ProgramSpi`. A byte of the file that was never written is `u`.
  unfoldable pub program_spi : ℕ → ℕ → SpiOptions → BitFile → Spi → S → Spi × S × Bool
  program_spi u past options file p s =
      let q = unusable p (shift_ir user1 s) in
      let length = file.size * 8 in
      let r = program_steps past options (map (cell_value u) file.buffer) length q.0 q.1 in
      let r' =
        if q.2
        then (q.1, false)
        else (if ltb (q.0.pages * q.0.page_size * 8) length then (q.1, false) else r) in
      (q.0, r'.0, r'.1)
