-- ===== src/Controller/Can/Text.antt =====
-- The text of a frame that `SLCan::send` writes, and that the parser takes it back.
use pi_industrial_robottools.Base.{
  ℕ, zero, suc, ◌+◌, ◌-◌, ◌*◌, ◌/◌, ◌%◌, ◌<◌, ◌≡◌, ◌≢◌, refl, ap, ap₂, ◌∙◌, arith, List, [], ◌∷◌,
  ◌++◌, some, length, take, ltb, ◌==◌, true, false, length-append, All,
}
use pi_industrial_robottools.Base.Word.{IsByte}
use pi_industrial_robottools.Controller.Can.{
  CanRxTab, find_item, hex_digit, hex_byte, line, hex_pairs,
}
use pi_industrial_robottools.Controller.Can.Digits.{
  hex_to_dec-hex_digit, hex_digit-ne_cr, hex_byte_eq,
}
use pi_industrial_robottools.Controller.Can.Decode.{payload}
use pi_industrial_robottools.Controller.Can.Line.{parse}

-- No carriage return.
abbrev pub NoCr : List ℕ → Type 0
NoCr xs = All (λ x. x ≢ 13) xs

hex_byte-cons : (x i : ℕ) (xs : List ℕ) → hex_byte (x ∷ xs) (suc i) ≡ hex_byte xs i
unfolding hex_byte
hex_byte-cons x i xs = let e : suc i + 1 ≡ suc (i + 1) = omega arith in rw e

payload-cons : (x i n : ℕ) (xs : List ℕ) → payload (x ∷ xs) (suc i) n ≡ payload xs i n
unfolding payload
payload-cons x i zero xs = refl
payload-cons x i (suc n) xs =
    let e : suc i + 2 ≡ suc (i + 2) = omega arith in
    rw (hex_byte-cons x i xs, e, payload-cons x (i + 2) n xs)

pair_byte :
    (b : ℕ) (r : List ℕ) → b < 256 → hex_byte (hex_digit (b / 16) ∷ hex_digit (b % 16) ∷ r) 0 ≡ b
pair_byte b r h = omega (
  arith,
  hex_byte_eq (hex_digit (b / 16) ∷ hex_digit (b % 16) ∷ r) 0,
  hex_to_dec-hex_digit (b / 16) (omega arith),
  hex_to_dec-hex_digit (b % 16) (omega arith),
)

-- The digits of some bytes read back as the bytes.
payload-hex_pairs : (bs r : List ℕ) → All IsByte bs → payload (hex_pairs bs ++ r) 0 (length bs) ≡ bs
unfolding payload
payload-hex_pairs [] r h = refl
payload-hex_pairs (b ∷ bs) r h =
    let hi = hex_digit (b / 16) in
    let lo = hex_digit (b % 16) in
    let rest = hex_pairs bs ++ r in
    ap₂ ◌∷◌ (pair_byte b rest h.0) (
      payload-cons hi 1 (length bs) (lo ∷ rest)
      ∙ payload-cons lo 0 (length bs) rest
      ∙ payload-hex_pairs bs r h.1)

length-hex_pairs : (bs : List ℕ) → length (hex_pairs bs) ≡ length bs * 2
length-hex_pairs [] = refl
length-hex_pairs (b ∷ bs) = omega (arith, length-hex_pairs bs)

hex_pairs-NoCr : (bs : List ℕ) → NoCr (hex_pairs bs)
hex_pairs-NoCr [] = tt
hex_pairs-NoCr (b ∷ bs) = (hex_digit-ne_cr (b / 16), (hex_digit-ne_cr (b % 16), hex_pairs-NoCr bs))

take-length : (xs : List ℕ) → take (length xs) xs ≡ xs
take-length [] = refl
take-length (x ∷ xs) = ap (◌∷◌ x) (take-length xs)

payload_five : (t a b c d n : ℕ) (r : List ℕ) → payload (t ∷ a ∷ b ∷ c ∷ d ∷ r) 5 n ≡ payload r 0 n
payload_five t a b c d n r =
    payload-cons t 4 n (a ∷ b ∷ c ∷ d ∷ r)
    ∙ payload-cons a 3 n (b ∷ c ∷ d ∷ r)
    ∙ payload-cons b 2 n (c ∷ d ∷ r)
    ∙ payload-cons c 1 n (d ∷ r)
    ∙ payload-cons d 0 n r

long_enough : (m : ℕ) → 0 < m → ltb (suc (suc (suc (suc (suc m))))) 6 ≡ false
long_enough m h = ground arith

length_fits : (n m : ℕ) → m ≡ n * 2 + 1 → (n * 2 == suc (suc (suc (suc (suc m)))) - 6) ≡ true
length_fits n m h = ground arith

module _ {ℓ} {A : Type ℓ} where
  -- Only the three characters of the identifier count in a lookup.
  find_item-id :
      (t u a b c : ℕ) (r s : List ℕ) (tab : List (CanRxTab A))
      → find_item (t ∷ a ∷ b ∷ c ∷ r) tab ≡ find_item (u ∷ a ∷ b ∷ c ∷ s) tab
  unfolding find_item
  find_item-id t u a b c r s [] = refl
  find_item-id t u a b c r s (item ∷ tab) = rw (find_item-id t u a b c r s tab)

  -- The parser takes back the frame of some bytes.
  pub parse-line :
      (tab : List (CanRxTab A)) (a b c : ℕ) (buf : List ℕ) {item : CanRxTab A}
      → find_item (0 ∷ a ∷ b ∷ c ∷ []) tab ≡ some item
      → All IsByte buf
      → length buf < 16
      → parse tab (line (a ∷ b ∷ c ∷ []) buf (length buf) ++ 13 ∷ []) ≡ some (item.cb, buf)
  unfolding parse
  parse-line tab a b c buf {item} found bytes small =
      let n = length buf in
      let dg = hex_digit n in
      let r = hex_pairs buf ++ 13 ∷ [] in
      let len_r : length r ≡ n * 2 + 1 =
        omega (arith, length-append (hex_pairs buf) (13 ∷ []), length-hex_pairs buf) in
      let read : payload (b't' ∷ a ∷ b ∷ c ∷ dg ∷ r) 5 n ≡ buf =
        payload_five b't' a b c dg n r ∙ payload-hex_pairs buf (13 ∷ []) bytes in
      rw (take-length buf) (
        rw (find_item-id b't' 0 a b c (dg ∷ r) [] tab, found, hex_to_dec-hex_digit n small, read)
          (rw (long_enough (length r) (omega (arith, len_r)), length_fits n (length r) len_r)))

pub line-NoCr :
    (a b d : ℕ) (buf : List ℕ)
    → NoCr (a ∷ b ∷ d ∷ [])
    → NoCr (line (a ∷ b ∷ d ∷ []) buf (length buf))
line-NoCr a b d buf h = rw (take-length buf) (
  (λ e. omega (arith, e)),
  (h.0, (h.1.0, (h.1.1.0, (hex_digit-ne_cr (length buf), hex_pairs-NoCr buf)))),
)

pub length-line :
    (a b d : ℕ) (buf : List ℕ)
    → length buf < 14
    → length (line (a ∷ b ∷ d ∷ []) buf (length buf)) < 33
length-line a b d buf h = rw (take-length buf) (omega (arith, length-hex_pairs buf))
