-- ===== src/Papilio/BitFile/Length.antt =====
-- The buffer of a bit file keeps the length it says it has, and what `appendZeros` puts in it.
use pi_industrial_robottools.Base.{
  ℕ, zero, suc, ◌+◌, ◌*◌, ◌/◌, ◌%◌, ◌^◌, ◌<◌, ◌≡◌, refl, ap, sym, ◌∙◌, arith, Bool, true, false,
  List, [], ◌∷◌, ◌++◌, map, Option, none, some, length, drop, replicate, get_elem?, leb, ◌==◌,
  if◌then◌else◌, length-append, length-map, length-replicate,
}
use pi_industrial_robottools.Papilio.BitFile.{
  BitFile, Cell, Result, Exception, ◌>>=◌, flipped, read_bytes, read_field, process_data, field_of,
  set_field, read_sections, read_file, zero_fourths, append_zeros, words, append_words, append_file,
  set_length,
}
use Exception.{expected_end, bad_alloc}
use Result.{ok, throw, stuck}

-- `length` is the number of cells of `buffer`.
abbrev pub IsSized : BitFile → Type 0
IsSized bf = bf.size ≡ length bf.buffer

-- What holds of the value that a call returns, if it returns one.
module _ {A : Type 0} where
  abbrev pub Returns : (A → Type 0) → Result A → Type 0
  Returns P (ok a) = P a
  Returns P (throw e) = Unit
  Returns P stuck = Unit

Returns-bind :
    {A B : Type 0} (P : A → Type 0) (Q : B → Type 0) (m : Result A) (f : A → Result B)
    → Returns P m
    → ((a : A) → P a → Returns Q (f a))
    → Returns Q (m >>= f)
Returns-bind P Q (ok a) f h k = k a h
Returns-bind P Q (throw e) f h k = tt
Returns-bind P Q stuck f h k = tt

Returns-if :
    {A : Type 0} (P : A → Type 0) (b : Bool) (x y : Result A)
    → Returns P x
    → Returns P y
    → Returns P (if b then x else y)
Returns-if P true x y hx hy = hx
Returns-if P false x y hx hy = hy

Returns-any : {A : Type 0} (m : Result A) → Returns (λ a. Unit) m
Returns-any (ok a) = tt
Returns-any (throw e) = tt
Returns-any stuck = tt

-- A call of an operation that changes the buffer.
pub data Edit : Type 0 where
  read : Bool → Option (List ℕ) → Edit
  zeros : ℕ → Edit
  words_of : ℕ → ℕ → Edit
  file : Bool → Option (List ℕ) → Edit
  resize : ℕ → Edit

abbrev pub edit : Edit → BitFile → Result BitFile
edit (Edit.read flip f) bf = read_file flip f bf
edit (Edit.zeros cnt) bf = ok (append_zeros cnt bf)
edit (Edit.words_of val cnt) bf = ok (append_words val cnt bf)
edit (Edit.file flip f) bf = append_file flip f bf
edit (Edit.resize bits) bf = ok (set_length bits bf)

pub length-zero_fourths : (cs : List Cell) → length (zero_fourths cs) ≡ length cs
unfolding zero_fourths
length-zero_fourths [] = refl
length-zero_fourths (a ∷ []) = refl
length-zero_fourths (a ∷ b ∷ []) = refl
length-zero_fourths (a ∷ b ∷ c ∷ []) = refl
length-zero_fourths (a ∷ b ∷ c ∷ d ∷ rest) = omega (arith, length-zero_fourths rest)

length-words : (cnt val : ℕ) → length (words cnt val) ≡ 4 * cnt
unfolding words
length-words zero val = omega arith
length-words (suc cnt) val = omega (arith, length-words cnt val)

-- Every fourth new cell is zero and the others are not written.
fourths :
    (cnt j : ℕ)
    → j < cnt
    → get_elem? (zero_fourths (replicate cnt none)) j ≡ some (if j % 4 == 0 then some 0 else none)
unfolding zero_fourths
fourths zero j h = absurd (omega (arith, h))
fourths (suc zero) zero h = refl
fourths (suc (suc zero)) zero h = refl
fourths (suc (suc zero)) (suc zero) h = refl
fourths (suc (suc (suc zero))) zero h = refl
fourths (suc (suc (suc zero))) (suc zero) h = refl
fourths (suc (suc (suc zero))) (suc (suc zero)) h = refl
fourths (suc (suc (suc (suc cnt)))) zero h = refl
fourths (suc (suc (suc (suc cnt)))) (suc zero) h = refl
fourths (suc (suc (suc (suc cnt)))) (suc (suc zero)) h = refl
fourths (suc (suc (suc (suc cnt)))) (suc (suc (suc zero))) h = refl
fourths (suc (suc (suc (suc cnt)))) (suc (suc (suc (suc j)))) h =
    let e : suc (suc (suc (suc j))) % 4 ≡ j % 4 = omega arith in rw e (fourths cnt j (omega arith))
fourths (suc zero) (suc j) h = absurd (omega (arith, h))
fourths (suc (suc zero)) (suc (suc j)) h = absurd (omega (arith, h))
fourths (suc (suc (suc zero))) (suc (suc (suc j))) h = absurd (omega (arith, h))

-- A read that succeeds gives as many bytes as it was asked for.
read_bytes-length : (n : ℕ) (fp : List ℕ) → Returns (λ r. length r.0 ≡ n) (read_bytes n fp)
unfolding read_bytes
read_bytes-length zero fp = refl
read_bytes-length (suc n) [] = tt
read_bytes-length (suc n) (b ∷ fp) =
    Returns-bind (λ r. length r.0 ≡ n) (λ r. length r.0 ≡ suc n) (read_bytes n fp)
      (λ r. ok (b ∷ r.0, r.1)) (read_bytes-length n fp) (λ r e. ap suc e)

process_data-IsSized :
    (flip : Bool) (fp : List ℕ) (bf : BitFile) → Returns IsSized (process_data flip fp bf)
unfolding process_data
process_data-IsSized flip [] bf = tt
process_data-IsSized flip (a ∷ []) bf = tt
process_data-IsSized flip (a ∷ b ∷ []) bf = tt
process_data-IsSized flip (a ∷ b ∷ c ∷ []) bf = tt
process_data-IsSized flip (t0 ∷ t1 ∷ t2 ∷ t3 ∷ fp) bf =
    let n = t0 * 2 ^ 24 + t1 * 2 ^ 16 + t2 * 2 ^ 8 + t3 in
    let loaded : List ℕ × List ℕ → Result BitFile =
      λ r. ok (record bf { size = n; buffer = map (flipped flip) r.0 }) in
    let checked : List ℕ × List ℕ → Result BitFile =
      λ r. if length r.1 == 0 then loaded r else throw expected_end in
    Returns-if IsSized (leb 128 t0) (throw bad_alloc) (read_bytes n fp >>= checked) tt (
      Returns-bind (λ r. length r.0 ≡ n) IsSized (read_bytes n fp) checked (read_bytes-length n fp)
        (λ r e.
          Returns-if IsSized (length r.1 == 0) (loaded r) (throw expected_end)
            (omega (arith, e, length-map r.0 (flipped flip))) tt))

read_sections-IsSized :
    (fuel : ℕ) (flip : Bool) (fp : List ℕ) (bf : BitFile)
    → Returns IsSized (read_sections fuel flip fp bf)
unfolding read_sections
read_sections-IsSized zero flip fp bf = tt
read_sections-IsSized (suc fuel) flip [] bf = tt
read_sections-IsSized (suc fuel) flip (key ∷ fp) bf =
    let next : List ℕ × List ℕ → Result BitFile =
      λ r. read_sections fuel flip r.1 (set_field key r.0 bf) in
    let field = read_field (field_of key bf) fp in
    Returns-if IsSized (key == b'e') (process_data flip fp bf) (field >>= next)
      (process_data-IsSized flip fp bf)
      (Returns-bind (λ r. Unit) IsSized field next (Returns-any field)
        (λ r _. read_sections-IsSized fuel flip r.1 (set_field key r.0 bf)))

-- Whatever operation changes the buffer and returns, `length` is the number of cells of the
-- buffer afterwards if it was before.
pub edit-IsSized : (e : Edit) (bf : BitFile) → IsSized bf → Returns IsSized (edit e bf)
unfolding read_file append_zeros append_words append_file set_length
edit-IsSized (Edit.read flip none) bf h = tt
edit-IsSized (Edit.read flip (some contents)) bf h =
    read_sections-IsSized (length contents + 1) flip (drop 13 contents) bf
edit-IsSized (Edit.zeros cnt) bf h =
    let new : List Cell = replicate cnt none in
    omega (
      arith,
      h,
      length-append bf.buffer (zero_fourths new),
      length-zero_fourths new,
      length-replicate {A = Cell} cnt none,
    )
edit-IsSized (Edit.words_of val cnt) bf h =
    omega (
      arith,
      h,
      length-append bf.buffer (words (cnt % 2 ^ 30) val),
      length-words (cnt % 2 ^ 30) val,
    )
edit-IsSized (Edit.file flip none) bf h = tt
edit-IsSized (Edit.file flip (some contents)) bf h =
    let add : List ℕ × List ℕ → Result BitFile = λ r. ok (record bf {
      size = bf.size + length contents;
      buffer = bf.buffer ++ map (flipped flip) r.0;
    }) in
    Returns-bind (λ r. length r.0 ≡ length contents) IsSized (read_bytes (length contents) contents)
      add (read_bytes-length (length contents) contents)
      (λ r e. omega (
        arith,
        h,
        e,
        length-append bf.buffer (map (flipped flip) r.0),
        length-map r.0 (flipped flip),
      ))
edit-IsSized (Edit.resize bits) bf h =
    sym (length-replicate {A = Cell} ((bits + 7) % 2 ^ 32 / 8) none)

get_elem?-append :
    (xs ys : List Cell) (j : ℕ) → get_elem? (xs ++ ys) (length xs + j) ≡ get_elem? ys j
get_elem?-append [] ys j = let e : 0 + j ≡ j = omega arith in rw e
get_elem?-append (x ∷ xs) ys j =
    let e : suc (length xs) + j ≡ suc (length xs + j) = omega arith in
    rw (e, get_elem?-append xs ys j)

-- Of the bytes that `appendZeros` adds, each fourth one is zero, from the first on, and no other
-- is written.
pub append_zeros-cell :
    (cnt j : ℕ) (bf : BitFile)
    → j < cnt
    → get_elem? ((append_zeros cnt bf).buffer) (length bf.buffer + j)
      ≡ some (if j % 4 == 0 then some 0 else none)
unfolding append_zeros
append_zeros-cell cnt j bf h =
    get_elem?-append bf.buffer (zero_fourths (replicate cnt none)) j ∙ fourths cnt j h
