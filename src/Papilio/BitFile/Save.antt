-- ===== src/Papilio/BitFile/Save.antt =====
-- What `saveAs` writes of a buffer, and what it leaves out.
use pi_industrial_robottools.Base.{
  ℕ, zero, suc, ◌+◌, ◌-◌, ◌<◌, ◌≤◌, ◌≢◌, ◌≡◌, refl, ap, ◌∙◌, arith, false, List, [], ◌∷◌, ◌++◌, map,
  none, some, length, take, replicate, get_or, ◌==◌, length-append, length-map, length-replicate,
}
use pi_industrial_robottools.Papilio.BitFile.{BitFile, Cell, bit_rev, cell_value, clip_end, save_as}

take-append : {A : Type 0} (xs ys : List A) → take (length xs) (xs ++ ys) ≡ xs
take-append [] ys = refl
take-append (x ∷ xs) ys = ap (λ t. x ∷ t) (take-append xs ys)

get_or-middle : {A : Type 0} (xs ys : List A) (y d : A) → get_or (xs ++ y ∷ ys) (length xs) d ≡ y
get_or-middle [] ys y d = refl
get_or-middle (x ∷ xs) ys y d = get_or-middle xs ys y d

get_or-after :
    {A : Type 0} (xs ys : List A) (y : A) (i : ℕ) (d : A)
    → get_or (xs ++ y ∷ ys) (suc (length xs + i)) d ≡ get_or ys i d
get_or-after [] ys y i d = let e : 0 + i ≡ i = omega arith in rw e
get_or-after (x ∷ xs) ys y i d =
    let e : suc (length xs) + i ≡ suc (length xs + i) = omega arith in
    rw (e, get_or-after xs ys y i d)

get_or-replicate : {A : Type 0} (n i : ℕ) (a d : A) → i < n → get_or (replicate n a) i d ≡ a
get_or-replicate zero i a d h = absurd (omega (arith, h))
get_or-replicate (suc n) zero a d h = refl
get_or-replicate (suc n) (suc i) a d h = get_or-replicate n i a d (omega arith)

clip_end-stop :
    (u : ℕ) (buffer : List Cell) (c x : ℕ)
    → x ≢ 0xff
    → get_or buffer c none ≡ some x
    → clip_end u buffer c ≡ c
unfolding clip_end
clip_end-stop u buffer zero x hx e = refl
clip_end-stop u buffer (suc c) x hx e = rw e (ground arith)

clip_end-pass :
    (u : ℕ) (buffer : List Cell) (c : ℕ)
    → get_or buffer (suc c) none ≡ some 0xff
    → clip_end u buffer (suc c) ≡ clip_end u buffer c
unfolding clip_end
clip_end-pass u buffer c e = rw e

-- The search passes over `0xff`s and stops at the byte before them.
clip_end-eq :
    (u x k : ℕ) (before : List Cell) (n : ℕ)
    → x ≢ 0xff
    → n ≤ k
    → clip_end u (before ++ some x ∷ replicate k (some 0xff)) (length before + n) ≡ length before
clip_end-eq u x k before zero hx hn =
    let e : length before + 0 ≡ length before = omega arith in
    rw e (
      clip_end-stop u (before ++ some x ∷ replicate k (some 0xff)) (length before) x hx
        (get_or-middle before (replicate k (some 0xff)) (some x) none))
clip_end-eq u x k before (suc n) hx hn =
    let e : length before + suc n ≡ suc (length before + n) = omega arith in
    let ffs : List Cell = replicate k (some 0xff) in
    let f =
      get_or-after before ffs (some x) n none
      ∙ get_or-replicate k n (some 0xff) none (omega arith) in
    rw (e, clip_end-pass u (before ++ some x ∷ ffs) (length before + n) f)
      (clip_end-eq u x k before n hx (omega arith))

map-value :
    (u : ℕ) (xs : List ℕ) → map (λ c. bit_rev (cell_value u c)) (map some xs) ≡ map bit_rev xs
map-value u [] = refl
map-value u (x ∷ xs) = ap (λ t. bit_rev x ∷ t) (map-value u xs)

-- A buffer as long as the object says, which holds some bytes, a byte `x` other than `0xff` and
-- then only `0xff`s, is written as the first bytes in reverse bit order, without the `0xff`s and
-- without `x`.
pub save_as-drops_last :
    (u : ℕ) (bf : BitFile) (xs : List ℕ) (x k : ℕ)
    → x ≢ 0xff
    → bf.buffer ≡ map some xs ++ some x ∷ replicate k (some 0xff)
    → bf.size ≡ length bf.buffer
    → save_as u 0 bf ≡ (length xs, map bit_rev xs)
unfolding save_as
save_as-drops_last u bf xs x k hx hb hs =
    let cells : List Cell = map some xs in
    let ffs : List Cell = replicate k (some 0xff) in
    let l : length bf.buffer ≡ length xs + suc k = rw hb (
      omega (
        arith,
        length-append cells (some x ∷ ffs),
        length-map xs some,
        length-replicate {A = Cell} k (some 0xff),
      )) in
    let ne : (bf.size == 0) ≡ false = ground arith in
    let last : bf.size - 1 ≡ length cells + k = omega (arith, length-map xs some) in
    rw (
      ne,
      last,
      hb,
      clip_end-eq u x k cells k hx (omega arith),
      take-append cells (some x ∷ ffs),
      map-value u xs,
      length-map xs some,
    )
