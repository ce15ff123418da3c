-- ===== src/Papilio/Spi.antt =====
-- papilio-prog/progalgspi.cpp and progalgspi.h: programming a serial flash through the FPGA. What
-- the chain shifts out for the bytes that `shiftDR` shifts in is a parameter, `shift`, over any
-- state `S` of the hardware. Waiting and messages are left out.
pub mod Frame
mod Tests
pub mod Identify
pub mod Erase
pub mod Write
pub mod Verify
pub mod Program
use pi_industrial_robottools.Base.{
  ℕ, zero, suc, ◌+◌, ◌*◌, ◌/◌, ◌%◌, ◌^◌, ◌-◌, Bool, true, false, not, ◌&&◌, ◌||◌, List, [], ◌∷◌,
  ◌++◌, map, take, drop, replicate, length, get_or, ◌==◌, if◌then◌else◌, bit_and,
}
use pi_industrial_robottools.Papilio.BitFile.{bit_rev}

-- `class ProgAlgSpi`: the fields that change.
pub record Spi : Type 0 where
  pub page_size : ℕ
  pub pages : ℕ
  pub flash_type : ℕ
  pub bulk_erase : ℕ
  pub sector_erase : ℕ

-- `SSTFLASH`
abbrev pub sst_flash : ℕ
sst_flash = 1

-- `MacronixFLASH`
abbrev pub macronix_flash : ℕ
macronix_flash = 2

-- `GENERIC`
abbrev pub generic : ℕ
generic = 3

-- The fields that the constructor sets and that stay as they are.
abbrev pub sector_size : ℕ
sector_size = 65536

abbrev pub max_retries : ℕ
max_retries = 4

-- `ProgAlgSpi::ProgAlgSpi`. It does not set `FlashType`, which holds some number `u`.
abbrev pub init : ℕ → Spi
init u = record {
  page_size = 264;
  pages = 1024;
  flash_type = u;
  bulk_erase = 100;
  sector_erase = 4;
}

-- `(FlashType==MacronixFLASH) || (FlashType==GENERIC)`
abbrev pub is_plain : Spi → Bool
is_plain p = (p.flash_type == macronix_flash) || (p.flash_type == generic)

-- `(FlashType==SSTFLASH) || (FlashType==MacronixFLASH) || (FlashType==GENERIC)`
abbrev pub is_linear : Spi → Bool
is_linear p = (p.flash_type == sst_flash) || is_plain p

-- `n` bytes of a buffer that may be shorter, filled up with zeros.
abbrev pub fit : ℕ → List ℕ → List ℕ
fit zero xs = []
fit (suc n) [] = 0 ∷ fit n []
fit (suc n) (x ∷ xs) = x ∷ fit n xs

-- The number of bytes of some bits.
abbrev pub bytes_of : ℕ → ℕ
bytes_of length = (length + 7) / 8

-- `spi_in` of `Spi_Command`: a header, the bytes, and one more byte.
unfoldable pub frame : List ℕ → ℕ → List ℕ
frame tdi length =
    map bit_rev (0x59 ∷ 0xa6 ∷ length / 2 ^ 8 % 256 ∷ length % 256 ∷ fit (bytes_of length) tdi)
    ++ 0 ∷ []

-- `tdo` of `Spi_Command`: what comes back is five bytes late.
unfoldable pub unframe : ℕ → List ℕ → List ℕ
unframe length spi_out = map bit_rev (fit (bytes_of length) (drop 5 spi_out))

-- `Spi_SetCommandRW`: the four bytes of a command.
unfoldable pub set_command_rw : Spi → ℕ → ℕ → List ℕ
set_command_rw p command address =
    if is_linear p
    then command ∷ address / 2 ^ 16 % 256 ∷ address / 2 ^ 8 % 256 ∷ address % 256 ∷ []
    else (let na = address * 2 ^ 9 in command ∷ na / 2 ^ 16 % 8 ∷ na / 2 ^ 9 % 2 ^ 7 * 2 ∷ 0 ∷ [])

module _ {S : Type 0} (shift : List ℕ → S → S × List ℕ) where
  -- `Spi_Command`, with what it reads.
  unfoldable pub spi_command : List ℕ → ℕ → S → S × List ℕ
  spi_command tdi length s = let r = shift (frame tdi length) s in (r.0, unframe length r.1)

  -- `Spi_Command` with no buffer to read into.
  abbrev pub send : List ℕ → ℕ → S → S
  send tdi length s = (spi_command tdi length s).0

  -- `(tdo[1]&StatusReg_Mask) == StatusReg_Val`
  abbrev pub status_ok : ℕ → ℕ → ℕ → S → S × Bool
  status_ok command mask val s =
      let r = spi_command (command ∷ 0 ∷ []) 16 s in (r.0, bit_and (get_or r.1 1 0) mask == val)

  -- `Spi_Check`
  unfoldable pub spi_check : Spi → S → S × Bool
  spi_check p s = if is_linear p then status_ok 0x05 0x01 0x00 s else status_ok 0xd7 0x83 0x80 s

  -- `Spi_Write_Check`
  unfoldable pub spi_write_check : Spi → S → S × Bool
  spi_write_check p s =
      if is_linear p then status_ok 0x05 0x1f 0x02 s else status_ok 0xd7 0x83 0x80 s

-- `for(x=0;x<=max;x++){ fail=!check(); if(!fail) break; Sleep(..); }` for `max + 1` rounds: whether
-- the last check that was made held.
unfoldable pub retry : {S : Type 0} → ℕ → (S → S × Bool) → S → S × Bool
retry zero check s = (s, false)
retry (suc n) check s =
    let r = check s in elim r.1 [ true ↦ (r.0, true) | false ↦ retry n check r.0 ]

abbrev pub retries : ℕ
retries = max_retries + 1
