-- ===== src/Papilio/Spi/Verify.antt =====
-- `Spi_Verify` of papilio-prog/progalgspi.cpp.
pub mod Compare
use pi_industrial_robottools.Base.{
  ℕ, zero, suc, ◌+◌, ◌*◌, ◌/◌, ◌%◌, Bool, true, false, not, ◌&&◌, ◌||◌, List, [], ◌∷◌, ◌++◌, ltb,
  ◌==◌, if◌then◌else◌, replicate, get_or,
}
use pi_industrial_robottools.Papilio.Spi.{
  Spi, is_linear, bytes_of, set_command_rw, spi_command, spi_check,
}
use pi_industrial_robottools.Papilio.Spi.Identify.{spi_identify}
use pi_industrial_robottools.Papilio.Spi.Erase.{spi_erase, spi_partial_erase}
use pi_industrial_robottools.Papilio.Spi.Write.{spi_write}

-- `!memcmp(..)` of `n` bytes at the places `i` and `j` of two buffers.
unfoldable pub same_bytes : ℕ → List ℕ → ℕ → List ℕ → ℕ → Bool
same_bytes zero xs i ys j = true
same_bytes (suc n) xs i ys j =
    (get_or xs i 0 == get_or ys j 0) && same_bytes n xs (i + 1) ys (j + 1)

-- The address of the page `i` in a read command.
abbrev pub read_address : ℕ → Spi → ℕ
read_address i p = if is_linear p then i * p.page_size else i

module _ {S : Type 0} (shift : List ℕ → S → S × List ℕ) where
  -- The page `i` is read, and `n` bytes of it are compared.
  unfoldable pub verify_page : ℕ → List ℕ → ℕ → Spi → S → S × Bool
  verify_page n bytes i p s =
      let r =
        spi_command shift (set_command_rw p 0x03 (read_address i p)) (8 * (p.page_size + 4)) s in
      (r.0, same_bytes n r.1 4 bytes (i * p.page_size))

  -- The loop: `n` pages from the page `i` on.
  unfoldable pub verify_pages : ℕ → ℕ → List ℕ → Spi → S → S × Bool
  verify_pages zero i bytes p s = (s, true)
  verify_pages (suc n) i bytes p s =
      let r = verify_page p.page_size bytes i p s in
      elim r.1 [ true ↦ verify_pages n (i + 1) bytes p r.0 | false ↦ (r.0, false) ]

  -- `Spi_Verify`
  unfoldable pub spi_verify : List ℕ → ℕ → Spi → S → S × Bool
  spi_verify bytes length p s =
      let w_bytes = bytes_of length in
      let do_pages = w_bytes / p.page_size in
      let r = verify_pages do_pages 0 bytes p s in
      elim r.1 [
        | true ↦
            if ltb (do_pages * p.page_size) w_bytes
            then verify_page (w_bytes % p.page_size) bytes do_pages p r.0
            else r
        | false ↦ r
      ]
