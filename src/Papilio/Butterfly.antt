-- ===== src/Papilio/Butterfly.antt =====
-- papilio-prog/butterfly.cpp: `append_data`. The string is the list of its characters, and `files`
-- gives the contents of a file by its name.
pub mod Append
pub mod Main
pub mod Outcome
mod Tests
use pi_industrial_robottools.Base.{
  ℕ, zero, suc, ◌+◌, ◌*◌, ◌/◌, ◌%◌, ◌^◌, ◌-◌, Bool, true, false, not, ◌&&◌, List, [], ◌∷◌, Option,
  none, some, ltb, leb, ◌==◌, if◌then◌else◌,
}
use pi_industrial_robottools.Papilio.BitFile.{BitFile, Result, ◌>>=◌, append_zeros, append_file}
use Result.{ok, throw, stuck}

-- `c >= lo && c <= hi`
abbrev pub within : ℕ → ℕ → ℕ → Bool
within lo hi c = leb lo c && leb c hi

-- What a digit of the address is worth.
abbrev pub digit : ℕ → Option ℕ
digit c =
    if within b'0' b'9' c
    then some (c - b'0')
    else (if within b'A' b'F' c
        then some (c - b'A' + 10)
        else (if within b'a' b'f' c then some (c - b'a' + 10) else none))

-- The loop of `append_data`: the address, as the 32 bits of an `int`, and the rest of the string.
unfoldable pub read_address : List ℕ → ℕ → Option (ℕ × List ℕ)
read_address [] addr = none
read_address (c ∷ cs) addr =
    let d = digit c in
    if c == b':'
    then some (addr, cs)
    else elim d [ some v ↦ read_address cs ((addr * 16 + v) % 2 ^ 32) | none ↦ none ]

-- `addr - fpga_bit.getLength()/8`, as the 32 bits of an `int`, which is negative from 2 ^ 31 on.
abbrev pub padding : ℕ → BitFile → ℕ
padding addr fpga_bit = (addr + (2 ^ 32 - fpga_bit.size % 2 ^ 32)) % 2 ^ 32

-- What `append_data` does once it has read the address.
unfoldable pub append_at : Option (List ℕ) → ℕ → Bool → BitFile → Result (BitFile × Bool)
append_at file addr flip fpga_bit =
    let pad = padding addr fpga_bit in
    let padded = if ltb 0 pad then append_zeros pad fpga_bit else fpga_bit in
    if leb (2 ^ 31) pad
    then ok (fpga_bit, false)
    else (append_file flip file padded >>= λ b. ok (b, true))

-- `append_data`, with what it returns.
unfoldable pub append_data :
    (List ℕ → Option (List ℕ)) → List ℕ → Bool → BitFile → Result (BitFile × Bool)
append_data files append_str flip fpga_bit = elim (read_address append_str 0) [
  | none ↦ ok (fpga_bit, false)
  | some (addr, name) ↦ append_at (files name) addr flip fpga_bit
]
