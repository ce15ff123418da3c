-- ===== src/Papilio/BitFile.antt =====
-- papilio-prog/bitfile.cpp and bitfile.h: Xilinx .bit files. A file is the list of its bytes, or
-- `none` where `fopen` fails. The fields are lists of bytes. An exception leaves `papilio-prog`, so
-- what it leaves in the object is not kept. Messages on the terminal are left out.
pub mod Flip
pub mod Format
pub mod Length
pub mod Save
mod Tests
use pi_industrial_robottools.Base.{
  ℕ, zero, suc, ◌+◌, ◌-◌, ◌*◌, ◌/◌, ◌%◌, ◌^◌, Bool, true, false, not, ◌&&◌, List, [], ◌∷◌, ◌++◌,
  map, Option, none, some, length, take, drop, replicate, get_or, ltb, leb, ◌==◌, if◌then◌else◌,
}

-- The loop of `initFlip` over the bits of a byte.
unfoldable pub flip_bits : ℕ → ℕ → ℕ → ℕ
flip_bits zero num fnum = fnum
flip_bits (suc k) num fnum = flip_bits k (num / 2) (fnum * 2 + num % 2)

-- `bitRevTable[i]`, also `reverse8`.
unfoldable pub bit_rev : ℕ → ℕ
unfolding flip_bits
bit_rev i = flip_bits 8 i 0

-- A byte of memory, `none` until it is written.
abbrev pub Cell : Type 0
Cell = Option ℕ

-- `class BitFile`. `length` counts bytes; `buffer` has that many cells.
pub record BitFile : Type 0 where
  pub ncd_filename : List ℕ
  pub part_name : List ℕ
  pub date : List ℕ
  pub time : List ℕ
  pub size : ℕ
  pub buffer : List Cell

-- `BitFile::BitFile`
abbrev pub init : BitFile
init = record { ncd_filename = []; part_name = []; date = []; time = []; size = 0; buffer = [] }

pub data Exception : Type 0 where
  cannot_open unexpected_end expected_end bad_alloc : Exception

-- `stuck` is no outcome of the code: a loop of the model ran out of fuel.
pub data Result {ℓ} (A : Type ℓ) : Type ℓ where
  ok : A → Result A
  throw : Exception → Result A
  stuck : Result A

infixl 5 ◌>>=◌
abbrev pub ◌>>=◌ {ℓ κ} : {A : Type ℓ} {B : Type κ} → Result A → (A → Result B) → Result B
ok a >>= f = f a
throw e >>= f = throw e
stuck >>= f = stuck

-- `fread` of `n` bytes one by one, which must all be there.
unfoldable pub read_bytes : ℕ → List ℕ → Result (List ℕ × List ℕ)
read_bytes zero fp = ok ([], fp)
read_bytes (suc n) [] = throw unexpected_end
read_bytes (suc n) (b ∷ fp) = do (bs, rest) ← read_bytes n fp; ok (b ∷ bs, rest)

-- `readField`: a length in two bytes, big endian, and the bytes, which are added to the field.
unfoldable pub read_field : List ℕ → List ℕ → Result (List ℕ × List ℕ)
read_field field (t0 ∷ t1 ∷ fp) = do
  (bs, rest) ← read_bytes (t0 * 256 + t1) fp
  ok (field ++ bs, rest)
read_field field (t0 ∷ []) = throw unexpected_end
read_field field [] = throw unexpected_end

-- `flip?bitRevTable[b]:b`
abbrev pub flipped : Bool → ℕ → Cell
flipped flip b = some (if flip then bit_rev b else b)

-- `processData`: a length in four bytes, big endian, and exactly so many bytes to the end of the file.
-- `t[0]<<24` is an `int`: from 128 on the length is a negative number, and the allocation fails.
unfoldable pub process_data : Bool → List ℕ → BitFile → Result BitFile
process_data flip (t0 ∷ t1 ∷ t2 ∷ t3 ∷ fp) bf =
    let len = t0 * 2 ^ 24 + t1 * 2 ^ 16 + t2 * 2 ^ 8 + t3 in
    if leb 128 t0
    then throw bad_alloc
    else (read_bytes len fp >>= λ r.
        (if length r.1 == 0
          then ok (record bf { size = len; buffer = map (flipped flip) r.0 })
          else throw expected_end))
process_data flip fp bf = throw unexpected_end

-- The field of a key, to which `readFile` points. An unknown key has a field that is dropped.
abbrev pub field_of : ℕ → BitFile → List ℕ
field_of key bf =
    if key == b'a'
    then bf.ncd_filename
    else (if key == b'b'
        then bf.part_name
        else (if key == b'c' then bf.date else (if key == b'd' then bf.time else [])))

abbrev pub set_field : ℕ → List ℕ → BitFile → BitFile
set_field key v bf =
    if key == b'a'
    then record bf { ncd_filename = v }
    else (if key == b'b'
        then record bf { part_name = v }
        else (if key == b'c'
            then record bf { date = v }
            else (if key == b'd' then record bf { time = v } else bf)))

-- The loop of `readFile`: a key, and its field or the data. `feof` holds only after a read that came
-- short, which throws by itself.
unfoldable pub read_sections : ℕ → Bool → List ℕ → BitFile → Result BitFile
read_sections zero flip fp bf = stuck
read_sections (suc fuel) flip [] bf = throw unexpected_end
read_sections (suc fuel) flip (key ∷ fp) bf =
    let more =
      (read_field (field_of key bf) fp >>= λ r.
      read_sections fuel flip r.1 (set_field key r.0 bf)) in
    if key == b'e' then process_data flip fp bf else more

-- `readFile`. Each round reads a byte at least, so the length of the file is fuel enough.
unfoldable pub read_file : Bool → Option (List ℕ) → BitFile → Result BitFile
read_file flip none bf = throw cannot_open
read_file flip (some contents) bf = read_sections (length contents + 1) flip (drop 13 contents) bf

-- `for(i = length; i < nlen; i += 4) buffer[i] = 0;` over the new cells.
unfoldable pub zero_fourths : List Cell → List Cell
zero_fourths [] = []
zero_fourths (a ∷ []) = some 0 ∷ []
zero_fourths (a ∷ b ∷ []) = some 0 ∷ b ∷ []
zero_fourths (a ∷ b ∷ c ∷ []) = some 0 ∷ b ∷ c ∷ []
zero_fourths (a ∷ b ∷ c ∷ d ∷ rest) = some 0 ∷ b ∷ c ∷ d ∷ zero_fourths rest

-- `appendZeros`
unfoldable pub append_zeros : ℕ → BitFile → BitFile
append_zeros cnt bf = record bf {
  size = bf.size + cnt;
  buffer = bf.buffer ++ zero_fourths (replicate cnt none);
}

-- The loop of `append(val, cnt)`.
unfoldable pub words : ℕ → ℕ → List Cell
words zero val = []
words (suc cnt) val =
    some (bit_rev (val / 2 ^ 24 % 256))
    ∷ some (bit_rev (val / 2 ^ 16 % 256))
    ∷ some (bit_rev (val / 2 ^ 8 % 256))
    ∷ some (bit_rev (val % 256))
    ∷ words cnt val

-- `append(val, cnt)`. `4*cnt` is computed in 32 bits, which leaves room for `cnt % 2 ^ 30` words.
unfoldable pub append_words : ℕ → ℕ → BitFile → BitFile
append_words val cnt bf = record bf {
  size = bf.size + 4 * (cnt % 2 ^ 30);
  buffer = bf.buffer ++ words (cnt % 2 ^ 30) val;
}

-- `append(fname, flip)`; `stat` gives the length of the file.
unfoldable pub append_file : Bool → Option (List ℕ) → BitFile → Result BitFile
append_file flip none bf = throw cannot_open
append_file flip (some contents) bf = do
  (bs, rest) ← read_bytes (length contents) contents
  ok (record bf { size = bf.size + length contents; buffer = bf.buffer ++ map (flipped flip) bs })

-- `setLength`, of an `unsigned int`.
unfoldable pub set_length : ℕ → BitFile → BitFile
set_length bits bf =
    let n = (bits + 7) % 2 ^ 32 / 8 in record bf { size = n; buffer = replicate n none }

-- The value of a cell; of one that was never written it is some number `u`.
abbrev pub cell_value : ℕ → Cell → ℕ
cell_value u none = u
cell_value u (some b) = b

-- `for(clip=length-1; (buffer[clip] == 0xff) && clip>0; clip--){};`
unfoldable pub clip_end : ℕ → List Cell → ℕ → ℕ
clip_end u buffer zero = zero
clip_end u buffer (suc clip) =
    let less = clip_end u buffer clip in
    if cell_value u (get_or buffer (suc clip) none) == 0xff then less else suc clip

-- `saveAs` with a file that opens: the value returned, and the bytes written.
unfoldable pub save_as : ℕ → ℕ → BitFile → ℕ × List ℕ
save_as u style bf =
    if bf.size == 0
    then (0, [])
    else (if style == 0
        then (let clip = clip_end u bf.buffer (bf.size - 1) in
            (clip, map (λ c. bit_rev (cell_value u c)) (take clip bf.buffer)))
        else (0, []))
