-- ===== src/Papilio/BitFile/Format.antt =====
-- What `readFile` makes of a well-formed .bit file: a writer of the format, and its reader.
use pi_industrial_robottools.Base.{
  ℕ, zero, suc, ◌+◌, ◌*◌, ◌/◌, ◌%◌, ◌^◌, ◌<◌, ◌≤◌, ◌≡◌, refl, ap, sym, ◌∙◌, arith, Bool, false,
  List, [], ◌∷◌, ◌++◌, map, some, length, drop, ltb, leb, ◌==◌, if◌then◌else◌, All, length-append,
  inl, inr, Bool-cases, ltb→lt,
}
use pi_industrial_robottools.Papilio.BitFile.{
  BitFile, Result, Exception, ◌>>=◌, flipped, read_bytes, read_field, process_data, field_of,
  set_field, read_sections, read_file,
}
use Exception.{unexpected_end, expected_end}
use Result.{ok, throw}
use mathlib.Core.List.{append_assoc, append-nil}

-- A field of the file: its key and its text.
pub record Section : Type 0 where
  pub key : ℕ
  pub text : List ℕ

abbrev pub IsValid : Section → Type 0
IsValid s = ((s.key == b'e') ≡ false) × (length s.text < 65536)

abbrev pub encode : List Section → List ℕ
encode [] = []
encode (s ∷ ss) = s.key ∷ length s.text / 256 ∷ length s.text % 256 ∷ (s.text ++ encode ss)

-- The data section, which announces `n` bytes.
abbrev pub data_section : ℕ → List ℕ → List ℕ
data_section n bytes = b'e' ∷ n / 2 ^ 24 ∷ n / 2 ^ 16 % 256 ∷ n / 2 ^ 8 % 256 ∷ n % 256 ∷ bytes

-- The fields of a file, added to the object.
abbrev pub store : List Section → BitFile → BitFile
store [] bf = bf
store (s ∷ ss) bf = store ss (set_field s.key (field_of s.key bf ++ s.text) bf)

-- What is to become of `n` announced bytes.
abbrev pub loaded : Bool → ℕ → List ℕ → BitFile → Result BitFile
loaded flip n bytes bf =
    if ltb (length bytes) n
    then throw unexpected_end
    else (if ltb n (length bytes)
        then throw expected_end
        else ok (record bf { size = n; buffer = map (flipped flip) bytes }))

read_bytes-append : (xs rest : List ℕ) → read_bytes (length xs) (xs ++ rest) ≡ ok (xs, rest)
unfolding read_bytes
read_bytes-append [] rest = refl
read_bytes-append (x ∷ xs) rest = rw (read_bytes-append xs rest)

read_bytes-short : (n : ℕ) (fp : List ℕ) → length fp < n → read_bytes n fp ≡ throw unexpected_end
unfolding read_bytes
read_bytes-short zero fp h = absurd (omega (arith, h))
read_bytes-short (suc n) [] h = refl
read_bytes-short (suc n) (b ∷ fp) h = rw (read_bytes-short n fp (omega arith))

-- The rest that `fread` leaves is as long as it must be.
read_bytes-long :
    (n : ℕ) (fp : List ℕ)
    → n ≤ length fp
    → (bs : List ℕ) × (rest : List ℕ) × (read_bytes n fp ≡ ok (bs, rest))
      × (bs ++ rest ≡ fp)
      × (length rest + n ≡ length fp)
unfolding read_bytes
read_bytes-long zero fp h = ([], fp, refl, refl, omega arith)
read_bytes-long (suc n) [] h = absurd (omega (arith, h))
read_bytes-long (suc n) (b ∷ fp) h =
    let (bs, rest, e, f, l) = read_bytes-long n fp (omega arith) in
    (b ∷ bs, rest, rw e, ap (λ t. b ∷ t) f, omega (arith, l))

read_field-encode :
    (field xs rest : List ℕ)
    → length xs < 65536
    → read_field field (length xs / 256 ∷ length xs % 256 ∷ (xs ++ rest)) ≡ ok (field ++ xs, rest)
unfolding read_field
read_field-encode field xs rest h =
    let e : length xs / 256 * 256 + length xs % 256 ≡ length xs = omega arith in
    rw (e, read_bytes-append xs rest)

read_sections-encode :
    (flip : Bool) (fuel : ℕ) (ss : List Section) (n : ℕ) (bytes : List ℕ) (bf : BitFile)
    → All IsValid ss
    → length ss < fuel
    → read_sections fuel flip (encode ss ++ data_section n bytes) bf
      ≡ process_data flip (drop 1 (data_section n bytes)) (store ss bf)
unfolding read_sections
read_sections-encode flip zero ss n bytes bf v h = absurd (omega (arith, h))
read_sections-encode flip (suc fuel) [] n bytes bf v h = refl
read_sections-encode flip (suc fuel) (s ∷ ss) n bytes bf v h =
    let d = data_section n bytes in
    let v0 = v.0.0 in
    rw (
      append_assoc s.text (encode ss) d,
      v0,
      read_field-encode (field_of s.key bf) s.text (encode ss ++ d) v.0.1,
      read_sections-encode flip fuel ss n bytes (set_field s.key (field_of s.key bf ++ s.text) bf)
          v.1 (omega arith),
    )

-- The bytes of the data, and the test for the end of the file.
abbrev take_data : Bool → ℕ → List ℕ → BitFile → Result BitFile
take_data flip n fp bf = read_bytes n fp >>= λ r.
    (if length r.1 == 0
      then ok (record bf { size = n; buffer = map (flipped flip) r.0 })
      else throw expected_end)

take_data-loaded :
    (flip : Bool) (n : ℕ) (bytes : List ℕ) (bf : BitFile)
    → take_data flip n bytes bf ≡ loaded flip n bytes bf
take_data-loaded flip n bytes bf = elim (Bool-cases (ltb (length bytes) n)) [
  | inl e ↦ rw (e, read_bytes-short n bytes (ltb→lt (length bytes) n e))
  | inr e ↦ elim (Bool-cases (ltb n (length bytes))) [
    | inl f ↦
        let (bs, rest, r, _, l) = read_bytes-long n bytes (ground arith) in
        let ne : (length rest == 0) ≡ false = ground arith in rw (e, f, r, ne)
    | inr f ↦
        let same : n ≡ length bytes = ground arith in
        let r : read_bytes n bytes ≡ ok (bytes, []) =
          rw same (
            ap (read_bytes (length bytes)) (sym (append-nil bytes)) ∙ read_bytes-append bytes []) in
        rw (e, f, r)
  ]
]

process_data-loaded :
    (flip : Bool) (n : ℕ) (bytes : List ℕ) (bf : BitFile)
    → n < 2 ^ 31
    → process_data flip (drop 1 (data_section n bytes)) bf ≡ loaded flip n bytes bf
unfolding process_data
process_data-loaded flip n bytes bf h =
    let e : n / 2 ^ 24 * 2 ^ 24 + n / 2 ^ 16 % 256 * 2 ^ 16 + n / 2 ^ 8 % 256 * 2 ^ 8 + n % 256
        ≡ n =
      omega arith in
    let small : leb 128 (n / 2 ^ 24) ≡ false = ground arith in
    rw (small, e, take_data-loaded flip n bytes bf)

drop-append : (xs ys : List ℕ) (n : ℕ) → length xs ≡ n → drop n (xs ++ ys) ≡ ys
drop-append [] ys zero h = refl
drop-append [] ys (suc n) h = absurd (omega (arith, h))
drop-append (x ∷ xs) ys zero h = absurd (omega (arith, h))
drop-append (x ∷ xs) ys (suc n) h = drop-append xs ys n (omega arith)

encode-enough : (ss : List Section) → length ss ≤ length (encode ss)
encode-enough [] = omega arith
encode-enough (s ∷ ss) = omega (arith, encode-enough ss, length-append s.text (encode ss))

-- What is read of a file with a header of 13 bytes, any fields, each with a key other than `e`
-- and a text below 64 KB, and a data section that announces `n` bytes, below 2 GB, with any bytes
-- after the announcement: the fields' texts are added to the fields of the object, the bytes, in
-- the order asked for, become the buffer if there are exactly `n`, and fewer or more of them
-- throw.
pub read_file-encode :
    (flip : Bool) (header : List ℕ) (ss : List Section) (n : ℕ) (bytes : List ℕ) (bf : BitFile)
    → length header ≡ 13
    → All IsValid ss
    → n < 2 ^ 31
    → read_file flip (some (header ++ (encode ss ++ data_section n bytes))) bf
      ≡ loaded flip n bytes (store ss bf)
unfolding read_file
read_file-encode flip header ss n bytes bf hh v h =
    let d = data_section n bytes in
    let body = encode ss ++ d in
    let enough : length ss < length (header ++ body) + 1 =
      omega (arith, encode-enough ss, length-append (encode ss) d, length-append header body) in
    rw (drop-append header body 13 hh) (
      read_sections-encode flip (length (header ++ body) + 1) ss n bytes bf v enough
      ∙ process_data-loaded flip n bytes (store ss bf) h)
