-- ===== src/Papilio/Spi/Tests.antt =====
-- A flash to run the functions of papilio-prog/progalgspi.cpp on, and examples.
use pi_industrial_robottools.Base.{
  ℕ, zero, suc, ◌+◌, ◌*◌, ◌/◌, ◌%◌, ◌^◌, ◌<◌, ◌≡◌, refl, ap, ◌∙◌, arith, Bool, true, List, [], ◌∷◌,
  ◌++◌, map, replicate, length, get_or, none, some, if◌then◌else◌, ◌==◌,
}
use pi_industrial_robottools.Papilio.BitFile.{BitFile, bit_rev, flip_bits, cell_value}
use pi_industrial_robottools.Papilio.BitFile.Flip.{bit_rev-bit_rev}
use pi_industrial_robottools.Papilio.Spi.{
  Spi, generic, bytes_of, fit, frame, unframe, set_command_rw, spi_command, spi_check,
  spi_write_check, retry,
}
use pi_industrial_robottools.Papilio.Spi.Frame.{forward, forward-frame}
use pi_industrial_robottools.Papilio.Spi.Identify.{spi_identify, identify}
use pi_industrial_robottools.Papilio.Spi.Erase.{spi_erase, erase_chip}
use pi_industrial_robottools.Papilio.Spi.Verify.{spi_verify, verify_pages, verify_page, same_bytes}
use pi_industrial_robottools.Papilio.Spi.Verify.Compare.{
  Reads, Matches, Finds, addressed, spi_verify-Finds,
}
use pi_industrial_robottools.Papilio.Spi.Program.{
  SpiOptions, erase_spi, program_spi, program_steps, write_steps, unusable,
}
use pi_industrial_robottools.Papilio.Spi.Program.Verified.{program_spi-verified, erase_spi-verified}

-- The byte at an address: erased behind the end.
abbrev byte_at : List ℕ → ℕ → ℕ
byte_at s x = get_or s x 0xff % 256

abbrev contents : ℕ → ℕ → List ℕ → List ℕ
contents zero a s = []
contents (suc n) a s = bit_rev (byte_at s a) ∷ contents n (suc a) s

-- A flash that can be read, is never busy, and has no identifier that is known.
unfoldable answer : List ℕ → List ℕ → List ℕ
answer (c ∷ x ∷ y ∷ z ∷ rest) s =
    if c == 0x03 then replicate 9 0 ++ contents (length rest) (x * 2 ^ 16 + y * 2 ^ 8 + z) s else []
answer _ s = []

abbrev flash : List ℕ → List ℕ → List ℕ × List ℕ
flash xs s = elim (forward xs) [ some (len, command) ↦ (s, answer command s) | none ↦ (s, []) ]

contents-at :
    (n k a : ℕ) (s : List ℕ)
    → k < n
    → get_or (map bit_rev (fit n (contents n a s))) k 0 ≡ byte_at s (a + k)
contents-at zero k a s lt = absurd (omega (arith, lt))
contents-at (suc n) zero a s lt =
    let e : a + 0 ≡ a = omega arith in rw e (bit_rev-bit_rev (byte_at s a) (omega arith))
contents-at (suc n) (suc k) a s lt =
    let e : suc a + k ≡ a + suc k = omega arith in
    rw e at (contents-at n k (suc a) s (omega (arith, lt)))

length-fit : (n : ℕ) (xs : List ℕ) → length (fit n xs) ≡ n
length-fit zero xs = refl
length-fit (suc n) [] = ap suc (length-fit n [])
length-fit (suc n) (x ∷ xs) = ap suc (length-fit n xs)

flash_eq :
    (xs : List ℕ) (len : ℕ) (command s : List ℕ)
    → forward xs ≡ some (len, command)
    → flash xs s ≡ (s, answer command s)
flash_eq xs len command s h = rw (flash, h) refl

read_eq :
    (a n : ℕ) (s : List ℕ)
    → a < 2 ^ 24
    → 8 * (n + 4) < 2 ^ 16
    → spi_command flash (addressed 0x03 a) (8 * (n + 4)) s
      ≡ (s, unframe (8 * (n + 4)) (replicate 9 0 ++ contents n a s))
unfolding spi_command answer
read_eq a n s small fits =
    let size : bytes_of (8 * (n + 4)) ≡ suc (suc (suc (suc n))) = omega arith in
    let e : a / 2 ^ 16 % 256 * 2 ^ 16 + a / 2 ^ 8 % 256 * 2 ^ 8 + a % 256 ≡ a =
      omega (arith, small) in
    let f =
      forward-frame (addressed 0x03 a) (8 * (n + 4))
        (omega arith, (omega arith, (omega arith, (omega arith, tt)))) fits in
    let answers : answer (fit (bytes_of (8 * (n + 4))) (addressed 0x03 a)) s
        ≡ replicate 9 0 ++ contents n a s =
      rw size (rw (length-fit n [], e) refl) in
    ap (λ r. (r.0, unframe (8 * (n + 4)) r.1)) (flash_eq _ _ _ s f ∙ ap (λ t. (s, t)) answers)

flash-Reads : Reads flash byte_at
unfolding unframe
flash-Reads = record {
  answers = λ a n k s small fits lt.
      (let size : bytes_of (8 * (n + 4)) ≡ suc (suc (suc (suc n))) = omega arith in
        let e : 4 + k ≡ suc (suc (suc (suc k))) = omega arith in
        rw (read_eq a n s small fits, size, e) (contents-at n k a s lt));
  keeps = λ a n x s small fits. rw (read_eq a n s small fits) refl;
}

-- A small flash with linear addresses, and a file that it holds.
abbrev small_spi : Spi
small_spi = record {
  page_size = 4;
  pages = 2;
  flash_type = generic;
  bulk_erase = 1;
  sector_erase = 1;
}

abbrev two_bytes : BitFile
two_bytes = record {
  ncd_filename = [];
  part_name = [];
  date = [];
  time = [];
  size = 5;
  buffer = some 0x12 ∷ some 0x34 ∷ some 0x56 ∷ some 0x78 ∷ some 0x9a ∷ [];
}

abbrev held : List ℕ
held = 0x12 ∷ 0x34 ∷ 0x56 ∷ 0x78 ∷ 0x9a ∷ []

-- Shifting in an instruction changes no byte.
abbrev no_change : ℕ → List ℕ → List ℕ
no_change i s = s

abbrev verify_run : Spi × List ℕ × Bool
verify_run = program_spi flash no_change 0 0 SpiOptions.verify_only two_bytes small_spi held

verify_run_eq : verify_run ≡ (small_spi, held, true)
unfolding program_spi program_steps write_steps unusable spi_identify identify spi_check spi_command
    spi_verify verify_pages verify_page same_bytes set_command_rw frame unframe answer bit_rev
    flip_bits
verify_run_eq = refl

program_spi-verified_example :
    Matches (byte_at verify_run.1) (map (cell_value 0) two_bytes.buffer) 0 5
program_spi-verified_example =
    program_spi-verified flash no_change byte_at flash-Reads (λ i x s. refl) 0 0
      SpiOptions.verify_only two_bytes small_spi held refl (rw verify_run_eq refl)
      (rw verify_run_eq (omega arith)) (rw verify_run_eq (omega arith))
      (rw verify_run_eq (omega arith)) (rw verify_run_eq refl)

abbrev erase_run : Spi × List ℕ × Bool
erase_run = erase_spi flash no_change small_spi []

erase_run_eq : erase_run ≡ (small_spi, [], true)
unfolding erase_spi unusable spi_identify identify spi_erase erase_chip spi_write_check retry
    spi_check spi_command spi_verify verify_pages verify_page same_bytes set_command_rw frame
    unframe answer bit_rev flip_bits
erase_run_eq = refl

erase_spi-verified_example : byte_at erase_run.1 7 ≡ 0xff
erase_spi-verified_example =
    erase_spi-verified flash no_change byte_at flash-Reads (λ i x s. refl) small_spi []
      (rw erase_run_eq refl) (rw erase_run_eq (omega arith)) (rw erase_run_eq (omega arith))
      (rw erase_run_eq (omega arith)) (rw erase_run_eq refl) 7 (rw erase_run_eq (omega arith))

spi_verify-Finds_example :
    Finds flash byte_at flash-Reads small_spi refl
      (omega arith)
      held
      (spi_verify flash held 40 small_spi held)
      held
      0
      5
spi_verify-Finds_example =
    spi_verify-Finds flash byte_at flash-Reads small_spi refl (omega arith) held 40 held
      (omega arith) (omega arith)

forward-frame_example : forward (frame (0x9f ∷ 0 ∷ []) 40) ≡ some (40, 0x9f ∷ 0 ∷ 0 ∷ 0 ∷ 0 ∷ [])
forward-frame_example =
    forward-frame (0x9f ∷ 0 ∷ []) 40 (omega arith, (omega arith, tt)) (omega arith)
