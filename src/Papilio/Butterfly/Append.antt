-- ===== src/Papilio/Butterfly/Append.antt =====
-- Where `append_data` of papilio-prog/butterfly.cpp puts a file.
use pi_industrial_robottools.Base.{
  ℕ, ◌+◌, ◌^◌, ◌-◌, ◌≤◌, ◌<◌, ◌≡◌, refl, ap, ◌⊎◌, inl, inr, arith, Bool, true, false, List, [], ◌∷◌,
  ◌++◌, Option, none, some, map, length, replicate, ltb, leb, Bool-cases, length-append, length-map,
  length-replicate,
}
use pi_industrial_robottools.Papilio.BitFile.{
  BitFile, Cell, Result, flipped, read_bytes, append_zeros, zero_fourths, append_file,
}
use pi_industrial_robottools.Papilio.BitFile.Length.{IsSized, length-zero_fourths}
use pi_industrial_robottools.Papilio.Butterfly.{read_address, padding, append_at, append_data}
use Result.{ok}

-- The buffer afterwards: what it held, then padding up to the address, then the file.
pub record Placed (before after : BitFile) (addr : ℕ) (bytes : List Cell) : Type 0 where
  pub gap : List Cell
  pub buffer_eq : after.buffer ≡ before.buffer ++ (gap ++ bytes)
  pub at_address : length before.buffer + length gap ≡ addr
  pub sized : IsSized after

read_bytes_all : (bs : List ℕ) → read_bytes (length bs) bs ≡ ok (bs, [])
unfolding read_bytes
read_bytes_all [] = refl
read_bytes_all (b ∷ bs) = rw (read_bytes_all bs) refl

append_assoc : (xs ys zs : List Cell) → (xs ++ ys) ++ zs ≡ xs ++ (ys ++ zs)
append_assoc [] ys zs = refl
append_assoc (x ∷ xs) ys zs = ap (λ t. x ∷ t) (append_assoc xs ys zs)

-- The outcome for an address in front of the end of the buffer, or behind it.
abbrev pub Appended : BitFile → ℕ → List Cell → Result (BitFile × Bool) → Type 0
Appended bf addr bytes r =
    ((bf.size ≤ addr) × ((b : BitFile) × (r ≡ ok (b, true)) × Placed bf b addr bytes))
    ⊎ ((addr < bf.size) × (r ≡ ok (bf, false)))

-- The file behind what the buffer holds.
abbrev with_file : List ℕ → Bool → BitFile → BitFile
with_file contents flip bf = record bf {
  size = bf.size + length contents;
  buffer = bf.buffer ++ map (flipped flip) contents;
}

append_file_eq :
    (contents : List ℕ) (flip : Bool) (bf : BitFile)
    → append_file flip (some contents) bf ≡ ok (with_file contents flip bf)
unfolding append_file
append_file_eq contents flip bf = rw (read_bytes_all contents) refl

with_file-sized :
    (contents : List ℕ) (flip : Bool) (bf : BitFile)
    → IsSized bf
    → IsSized (with_file contents flip bf)
with_file-sized contents flip bf sized = omega (
  arith,
  sized,
  length-append bf.buffer (map (flipped flip) contents),
  length-map contents (flipped flip),
)

append_at-Appended :
    (contents : List ℕ) (addr : ℕ) (flip : Bool) (bf : BitFile)
    → IsSized bf
    → addr < 2 ^ 31
    → bf.size < 2 ^ 31
    → Appended bf addr (map (flipped flip) contents) (append_at (some contents) addr flip bf)
unfolding append_at append_zeros
append_at-Appended contents addr flip bf sized small fits = elim (Bool-cases (leb bf.size addr)) [
  | inl room ↦
      let le : bf.size ≤ addr = ground arith in
      let pad : padding addr bf ≡ addr - bf.size = omega (arith, le, small) in
      let ok_pad : leb (2 ^ 31) (addr - bf.size) ≡ false = ground (arith, small) in
      elim (Bool-cases (ltb 0 (addr - bf.size))) [
        | inl some_pad ↦
            let gap = zero_fourths (replicate (addr - bf.size) none) in
            let at : length bf.buffer + length gap ≡ addr = omega (
              arith,
              sized,
              le,
              length-zero_fourths (replicate (addr - bf.size) none),
              length-replicate {A = Cell} (addr - bf.size) none,
            ) in
            let padded = append_zeros (addr - bf.size) bf in
            let padded_sized : IsSized padded =
              omega (arith, at, le, length-append bf.buffer gap) in
            inl (
              le,
              (
                with_file contents flip padded,
                rw (pad, ok_pad, some_pad, append_file_eq contents flip padded) refl,
                record {
                  gap = gap;
                  buffer_eq = append_assoc bf.buffer gap (map (flipped flip) contents);
                  at_address = at;
                  sized = with_file-sized contents flip padded padded_sized;
                },
              ),
            )
        | inr no_pad ↦
            let same : bf.size ≡ addr = ground arith in
            inl (
              le,
              (
                with_file contents flip bf,
                rw (pad, ok_pad, no_pad, append_file_eq contents flip bf) refl,
                record {
                  gap = [];
                  buffer_eq = refl;
                  at_address = omega (arith, sized, same);
                  sized = with_file-sized contents flip bf sized;
                },
              ),
            )
      ]
  | inr over ↦
      let lt : addr < bf.size = ground arith in
      let value : padding addr bf ≡ addr + (2 ^ 32 - bf.size) = omega (arith, lt, small, fits) in
      let neg : leb (2 ^ 31) (addr + (2 ^ 32 - bf.size)) ≡ true = ground (arith, fits) in
      inr (lt, rw (value, neg) refl)
]

-- With a string of an address and the name of a file that can be opened, `append_data` puts the
-- file into the buffer at the address, behind what the buffer held and a gap, and returns true,
-- if the address is not in front of the end of the buffer, and else changes nothing and returns
-- false. The address and the length of the buffer, which is the one that the object says, are
-- below 2 ^ 31.
pub append_data-Appended :
    (files : List ℕ → Option (List ℕ)) (str name contents : List ℕ) (addr : ℕ) (flip : Bool)
    (bf : BitFile)
    → read_address str 0 ≡ some (addr, name)
    → files name ≡ some contents
    → IsSized bf
    → addr < 2 ^ 31
    → bf.size < 2 ^ 31
    → Appended bf addr (map (flipped flip) contents) (append_data files str flip bf)
unfolding append_data
append_data-Appended files str name contents addr flip bf parses opens sized small fits =
    rw (append_data, parses, opens) (append_at-Appended contents addr flip bf sized small fits)
