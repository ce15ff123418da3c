-- ===== src/Papilio/Spi/Frame.antt =====
-- What `Spi_Command` of papilio-prog/progalgspi.cpp puts around the bytes of a command, and takes
-- away from the answer.
use pi_industrial_robottools.Base.{
  ℕ, zero, suc, ◌+◌, ◌*◌, ◌/◌, ◌%◌, ◌^◌, ◌<◌, ◌≡◌, ◌↔◌, refl, ap, arith, false, List, [], ◌∷◌, ◌++◌,
  map, get_or, Option, none, some, if◌then◌else◌, ◌&&◌, ◌==◌, take, All,
}
use pi_industrial_robottools.Papilio.BitFile.{bit_rev}
use pi_industrial_robottools.Papilio.BitFile.Flip.{bit_rev-bit_rev}
use pi_industrial_robottools.Papilio.Spi.{Spi, is_linear, set_command_rw, fit, bytes_of, frame}

-- A byte.
abbrev pub IsByte : ℕ → Type 0
IsByte b = b < 256

-- The circuit in the FPGA that `USER1` selects: it looks for its header, takes the number of bits
-- that follow, and hands the bytes on, each with its bits in the other order.
abbrev pub forward : List ℕ → Option (ℕ × List ℕ)
forward (a ∷ b ∷ c ∷ d ∷ xs) =
    let len = bit_rev c * 2 ^ 8 + bit_rev d in
    if (bit_rev a == 0x59) && (bit_rev b == 0xa6)
    then some (len, map bit_rev (take (bytes_of len) xs))
    else none
forward _ = none

pub fit-All : (n : ℕ) (xs : List ℕ) → All IsByte xs → All IsByte (fit n xs)
fit-All zero xs h = tt
fit-All (suc n) [] h = (omega arith, fit-All n [] tt)
fit-All (suc n) (x ∷ xs) h = (h.0, fit-All n xs h.1)

map-bit_rev :
    (xs ys : List ℕ) (n : ℕ)
    → All IsByte (fit n xs)
    → map bit_rev (take n (map bit_rev (fit n xs) ++ ys)) ≡ fit n xs
map-bit_rev xs ys zero h = refl
map-bit_rev [] ys (suc n) h = rw (bit_rev-bit_rev 0 h.0, map-bit_rev [] ys n h.1)
map-bit_rev (x ∷ xs) ys (suc n) h = rw (bit_rev-bit_rev x h.0, map-bit_rev xs ys n h.1)

-- Of a command of fewer than 2 ^ 16 bits and of bytes, a circuit that looks for the header, takes
-- the count of bits and turns the bytes round reads the count and the bytes back, the last ones
-- zero if the buffer is shorter.
pub forward-frame :
    (tdi : List ℕ) (len : ℕ)
    → All IsByte tdi
    → len < 2 ^ 16
    → forward (frame tdi len) ≡ some (len, fit (bytes_of len) tdi)
unfolding frame
forward-frame tdi len bytes small =
    let high : bit_rev (bit_rev (len / 2 ^ 8 % 256)) ≡ len / 2 ^ 8 % 256 =
      bit_rev-bit_rev _ (omega arith) in
    let low : bit_rev (bit_rev (len % 256)) ≡ len % 256 = bit_rev-bit_rev _ (omega arith) in
    let e : len / 2 ^ 8 % 256 * 2 ^ 8 + len % 256 ≡ len = omega (arith, small) in
    let first : bit_rev (bit_rev 0x59) ≡ 0x59 = bit_rev-bit_rev 0x59 (omega arith) in
    let second : bit_rev (bit_rev 0xa6) ≡ 0xa6 = bit_rev-bit_rev 0xa6 (omega arith) in
    rw (
      first,
      second,
      high,
      low,
      e,
      map-bit_rev tdi (0 ∷ []) (bytes_of len) (fit-All (bytes_of len) tdi bytes),
    )

-- For a flash without linear addresses, the commands for two pages are equal exactly when the
-- numbers of the pages are equal modulo 1024.
pub set_command_rw-aliases :
    (p : Spi) (command a b : ℕ)
    → is_linear p ≡ false
    → (set_command_rw p command a ≡ set_command_rw p command b) ↔ (a % 1024 ≡ b % 1024)
unfolding set_command_rw
set_command_rw-aliases p command a b h = rw h (
  (λ e.
      (let e1 = ap (λ xs. get_or xs 1 0) e in
        let e2 = ap (λ xs. get_or xs 2 0) e in omega (arith, e1, e2))),
  (λ e.
      (let e1 : a * 2 ^ 9 / 2 ^ 16 % 8 ≡ b * 2 ^ 9 / 2 ^ 16 % 8 = omega (arith, e) in
        let e2 : a * 2 ^ 9 / 2 ^ 9 % 2 ^ 7 ≡ b * 2 ^ 9 / 2 ^ 9 % 2 ^ 7 = omega (arith, e) in
        rw (e1, e2) refl)),
)
