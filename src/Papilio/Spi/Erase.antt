-- ===== src/Papilio/Spi/Erase.antt =====
-- `Spi_Erase` and `Spi_PartialErase` of papilio-prog/progalgspi.cpp.
use pi_industrial_robottools.Base.{
  ℕ, zero, suc, ◌+◌, ◌-◌, ◌*◌, ◌/◌, ◌%◌, Bool, true, false, List, [], ◌∷◌, ◌==◌, if◌then◌else◌,
}
use pi_industrial_robottools.Papilio.Spi.{
  Spi, sst_flash, macronix_flash, generic, is_plain, sector_size, bytes_of, set_command_rw, send,
  spi_check, spi_write_check, retry, retries,
}

module _ {S : Type 0} (shift : List ℕ → S → S × List ℕ) where
  abbrev pub check : Spi → S → S × Bool
  check p = spi_check shift p

  abbrev pub write_check : Spi → S → S × Bool
  write_check p = spi_write_check shift p

  -- The first commands for an SST flash: WREN, DBSY, EWSR, WRSR and WREN.
  unfoldable pub sst_unlock : S → S
  sst_unlock s =
      let s = send shift (0x06 ∷ []) 8 s in
      let s = send shift (0x80 ∷ []) 8 s in
      let s = send shift (0x50 ∷ []) 8 s in
      let s = send shift (0x01 ∷ 0x00 ∷ []) 16 s in send shift (0x06 ∷ []) 8 s

  -- The branch for an SST flash. A check before it is made for nothing.
  unfoldable pub erase_sst : Spi → S → S × Bool
  erase_sst p s =
      let s = (write_check p s).0 in
      let s = (retry retries (write_check p) (sst_unlock s)).0 in
      retry retries (check p) (send shift (0x60 ∷ []) 8 s)

  -- The branches for Macronix and other flashes, by the command and the number of checks: what the
  -- checks after the write enable find is overwritten.
  unfoldable pub erase_chip : ℕ → ℕ → Spi → S → S × Bool
  erase_chip command tries p s =
      let s = (retry retries (write_check p) (send shift (0x06 ∷ []) 7 s)).0 in
      retry tries (check p) (send shift (command ∷ []) 7 s)

  -- The loop over pages for an Atmel flash: `n` pages from the page `i` on.
  unfoldable pub erase_pages : ℕ → ℕ → Spi → S → S × Bool
  erase_pages zero i p s = (s, true)
  erase_pages (suc n) i p s =
      let r = retry retries (write_check p) (send shift (set_command_rw p 0x81 i) 32 s) in
      elim r.1 [ true ↦ erase_pages n (i + 1) p r.0 | false ↦ (r.0, false) ]

  -- `Spi_Erase`
  unfoldable pub spi_erase : Spi → S → S × Bool
  spi_erase p s =
      if p.flash_type == sst_flash
      then erase_sst p s
      else (if p.flash_type == macronix_flash
          then erase_chip 0x60 101 p s
          else (if p.flash_type == generic
              then erase_chip 0xc7 (p.bulk_erase + 1) p s
              else erase_pages p.pages 0 p s))

  -- A page of `Spi_PartialErase`: its sector is erased if it begins there.
  unfoldable pub erase_sector : ℕ → Spi → S → S × Bool
  erase_sector i p s =
      if i * p.page_size % sector_size == 0
      then (let s = (retry retries (write_check p) (send shift (0x06 ∷ []) 7 s)).0 in
          retry (p.sector_erase + 1) (check p)
            (send shift (set_command_rw p 0xd8 (i * p.page_size)) 31 s))
      else (s, true)

  -- Its loop: `n` pages from the page `i` on.
  unfoldable pub erase_sectors : ℕ → ℕ → Spi → S → S × Bool
  erase_sectors zero i p s = (s, true)
  erase_sectors (suc n) i p s =
      let r = erase_sector i p s in
      elim r.1 [ true ↦ erase_sectors n (i + 1) p r.0 | false ↦ (r.0, false) ]

  -- `Spi_PartialErase`
  unfoldable pub spi_partial_erase : ℕ → Spi → S → S × Bool
  spi_partial_erase length p s =
      if p.flash_type == sst_flash
      then erase_sst p s
      else (if is_plain p
          then erase_sectors ((bytes_of length + p.page_size - 1) / p.page_size) 0 p s
          else erase_pages p.pages 0 p s)
