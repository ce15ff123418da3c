-- ===== src/Papilio/Spi/Identify.antt =====
-- `Spi_Identify` of papilio-prog/progalgspi.cpp: the flash that answers, by its JEDEC identifier.
use pi_industrial_robottools.Base.{
  ℕ, Bool, true, false, List, [], ◌∷◌, ◌==◌, if◌then◌else◌, get_or, bit_and,
}
use pi_industrial_robottools.Papilio.Spi.{Spi, spi_command, sst_flash, macronix_flash, generic}

-- What a case of a switch leaves, and whether `Spi_Identify` goes on.
abbrev pub sized : ℕ → ℕ → Spi → Spi × Bool
sized pages page_size p = (record p { pages = pages; page_size = page_size }, true)

abbrev pub plain : ℕ → ℕ → ℕ → Spi → Spi × Bool
plain pages bulk_erase sector_erase p = (
  record p {
    pages = pages;
    page_size = 256;
    bulk_erase = bulk_erase;
    sector_erase = sector_erase;
    flash_type = generic;
  },
  true,
)

-- `case 0x1f`, by `tdo[2]&0x1f`
unfoldable pub atmel : ℕ → Spi → Spi × Bool
atmel size p =
    if size == 0x2
    then sized 512 264 p
    else (if size == 0x3
        then sized 1024 264 p
        else (if size == 0x4
            then sized 2048 264 p
            else (if size == 0x5
                then sized 4096 264 p
                else (if size == 0x6
                    then sized 4096 528 p
                    else (if size == 0x7
                        then sized 8192 528 p
                        else (if size == 0x8 then sized 8192 1056 p else (p, false)))))))

-- `case 0xc2`, by `tdo[3]`
unfoldable pub macronix : ℕ → Spi → Spi × Bool
macronix size p =
    if size == 0x17
    then (record p { pages = 32768; page_size = 256; flash_type = macronix_flash }, true)
    else (p, false)

-- `case 0x20`, by `tdo[2]` and `tdo[3]`
unfoldable pub numonyx : ℕ → ℕ → Spi → Spi × Bool
numonyx type size p =
    if type == 0xBA
    then (if size == 0x16
        then plain 16384 60 3 p
        else (if size == 0x17
            then plain 32768 250 3 p
            else (if size == 0x18
                then plain 65536 250 3 p
                else (if size == 0x19 then plain 131072 480 3 p else (p, false)))))
    else (if type == 0x20
        then (if size == 0x14 then plain 4096 20 3 p else (p, false))
        else (p, false))

-- `case 0xef`, by `tdo[2]` and `tdo[3]`
unfoldable pub winbond : ℕ → ℕ → Spi → Spi × Bool
winbond type size p =
    if type == 0x30
    then (if size == 0x13 then plain 2048 4 1 p else (p, false))
    else (if type == 0x40
        then (if size == 0x14
            then plain 4096 6 1 p
            else (if size == 0x15 then plain 8192 10 1 p else (p, false)))
        else (p, false))

abbrev pub sst_sized : ℕ → Spi → Spi × Bool
sst_sized pages p = (record p { pages = pages; page_size = 264; flash_type = sst_flash }, true)

-- `case 0xbf`, by `tdo[3]`
unfoldable pub sst : ℕ → Spi → Spi × Bool
sst size p =
    if size == 0x8d
    then sst_sized 2048 p
    else (if size == 0x8e
        then sst_sized 4096 p
        else (if size == 0x41
            then sst_sized 8192 p
            else (if size == 0x4a
                then sst_sized 16384 p
                else (if size == 0x4b then sst_sized 32768 p else (p, false)))))

-- The switches of `Spi_Identify`, by the bytes 1, 2 and 3 of the answer.
unfoldable pub identify : ℕ → ℕ → ℕ → Spi → Spi × Bool
identify maker type size p =
    if maker == 0x1f
    then atmel (bit_and type 0x1f) p
    else (if maker == 0xc2
        then macronix size p
        else (if maker == 0x20
            then numonyx type size p
            else (if maker == 0xef
                then winbond type size p
                else (if maker == 0xbf then sst size p else (p, false)))))

module _ {S : Type 0} (shift : List ℕ → S → S × List ℕ) where
  -- `Spi_Identify`
  unfoldable pub spi_identify : Spi → S → Spi × S × Bool
  spi_identify p s =
      let r = spi_command shift (0x9f ∷ 0 ∷ 0 ∷ 0 ∷ 0 ∷ []) 40 s in
      let i = identify (get_or r.1 1 0) (get_or r.1 2 0) (get_or r.1 3 0) p in (i.0, r.0, i.1)
