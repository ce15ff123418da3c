-- ===== src/Papilio/Spi/Write.antt =====
-- `Spi_Write` of papilio-prog/progalgspi.cpp.
pub mod Flash
pub mod Stores
mod Tests
use pi_industrial_robottools.Base.{
  ℕ, zero, suc, ◌+◌, ◌-◌, ◌*◌, ◌/◌, Bool, true, false, List, [], ◌∷◌, ◌++◌, ltb, ◌==◌,
  if◌then◌else◌, drop, take, get_or,
}
use pi_industrial_robottools.Papilio.Spi.{
  Spi, sst_flash, macronix_flash, is_plain, fit, bytes_of, set_command_rw, send, retry, retries,
}
use pi_industrial_robottools.Papilio.Spi.Erase.{check, write_check, sst_unlock}

-- The four bytes in front of a page: for an Atmel flash, a write to its buffer.
abbrev pub page_command : ℕ → Spi → List ℕ
page_command i p =
    if is_plain p then set_command_rw p 0x02 (i * p.page_size) else 0x84 ∷ 0 ∷ 0 ∷ 0 ∷ []

module _ {S : Type 0} (shift : List ℕ → S → S × List ℕ) where
  -- What comes before a page, for flashes that want a write enable. What the checks find is
  -- overwritten.
  abbrev pub enable_write : Spi → S → S
  enable_write p s =
      if is_plain p then (retry retries (write_check shift p) (send shift (0x06 ∷ []) 7 s)).0 else s

  -- `Write buffer to mem`, which only a Macronix flash is spared.
  abbrev pub commit_page : ℕ → Spi → S → S
  commit_page i p s =
      if p.flash_type == macronix_flash then s else send shift (set_command_rw p 0x88 i) 32 s

  -- The body of the loop over pages, with the bytes of the page `i`.
  unfoldable pub write_page : List ℕ → ℕ → Spi → S → S × Bool
  write_page bytes i p s =
      let s = enable_write p s in
      let s =
        send shift (page_command i p ++ fit p.page_size bytes) (8 * (p.page_size + 4) - 1) s in
      retry retries (check shift p) (commit_page i p s)

  -- The loop: `n` pages from the page `i` on, whose bytes `bytes` begins with.
  unfoldable pub write_pages : ℕ → ℕ → List ℕ → Spi → S → S × Bool
  write_pages zero i bytes p s = (s, true)
  write_pages (suc n) i bytes p s =
      let r = write_page (take p.page_size bytes) i p s in
      elim r.1 [
        | true ↦ write_pages n (i + 1) (drop p.page_size bytes) p r.0
        | false ↦ (r.0, false)
      ]

  -- The branch for all but SST flashes: full pages, and the rest. `bytes` is `write_data`, cut to
  -- the length.
  unfoldable pub write_by_pages : List ℕ → ℕ → Spi → S → S × Bool
  write_by_pages bytes w_bytes p s =
      let do_pages = w_bytes / p.page_size in
      let r = write_pages do_pages 0 bytes p s in
      elim r.1 [
        | true ↦
            if ltb (do_pages * p.page_size) w_bytes
            then write_page (drop (do_pages * p.page_size) bytes) do_pages p r.0
            else r
        | false ↦ r
      ]

  -- The loop for an SST flash: `n` rounds of two bytes each from the byte `i` on. Past the end of the
  -- data it reads what lies there, `u`.
  unfoldable pub write_pairs : ℕ → ℕ → ℕ → List ℕ → S → S
  write_pairs u zero i bytes s = s
  write_pairs u (suc n) i bytes s =
      write_pairs u n (i + 2) bytes
        (send shift (0xad ∷ get_or bytes i u ∷ get_or bytes (i + 1) u ∷ []) 24 s)

  -- The branch for an SST flash.
  unfoldable pub write_sst : ℕ → List ℕ → ℕ → Spi → S → S × Bool
  write_sst u bytes w_bytes p s =
      let s = (retry retries (check shift p) (sst_unlock shift s)).0 in
      let first = 0xad ∷ 0 ∷ 0 ∷ 0 ∷ get_or bytes 0 u ∷ get_or bytes 1 u ∷ [] in
      let r = retry retries (write_check shift p) (send shift first 48 s) in
      let s = if r.1 then write_pairs u (w_bytes / 2) 2 bytes r.0 else r.0 in
      retry retries (check shift p) (send shift (0x04 ∷ []) 8 s)

  -- `Spi_Write`
  unfoldable pub spi_write : ℕ → List ℕ → ℕ → Spi → S → S × Bool
  spi_write u bytes length p s =
      if p.flash_type == sst_flash
      then write_sst u bytes (bytes_of length) p s
      else write_by_pages bytes (bytes_of length) p s
