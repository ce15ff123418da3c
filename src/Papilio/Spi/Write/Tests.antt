-- ===== src/Papilio/Spi/Write/Tests.antt =====
-- A flash that can be written, and an example for `Spi_Write` of papilio-prog/progalgspi.cpp.
use pi_industrial_robottools.Base.{
  ℕ, zero, suc, ◌+◌, ◌-◌, ◌*◌, ◌/◌, ◌%◌, ◌^◌, ◌≤◌, ◌<◌, ◌≡◌, refl, ap, ◌∙◌, ◌⊎◌, inl, inr, arith,
  Bool, true, false, List, [], ◌∷◌, ◌++◌, length, get_or, none, some, ltb, leb, ◌&&◌, ◌==◌,
  if◌then◌else◌, All,
}
use pi_industrial_robottools.Papilio.BitFile.{bit_rev, flip_bits}
use pi_industrial_robottools.Papilio.Spi.{
  Spi, macronix_flash, fit, frame, unframe, send, spi_command, spi_check, spi_write_check, retry,
}
use pi_industrial_robottools.Papilio.Spi.Frame.{IsByte, forward, forward-frame, fit-All}
use pi_industrial_robottools.Papilio.Spi.Write.{spi_write}
use pi_industrial_robottools.Papilio.Spi.Write.Flash.{Programs}
use pi_industrial_robottools.Papilio.Spi.Write.Stores.{spi_write-Matches}
use pi_industrial_robottools.Papilio.Spi.Verify.Compare.{addressed, Matches}

record Nor : Type 0 where
  cells : ℕ → ℕ
  on : Bool

-- The bytes `stored` at the address `a`.
abbrev overlay : ℕ → List ℕ → (ℕ → ℕ) → ℕ → ℕ
overlay a stored f x = if leb a x && ltb x (a + length stored) then get_or stored (x - a) 0 else f x

unfoldable act : List ℕ → Nor → Nor
act (c ∷ []) s = if c == 0x06 then record s { on = true } else s
act (c ∷ x ∷ y ∷ z ∷ stored) s =
    if (c == 0x02) && s.on
    then record s { cells = overlay (x * 2 ^ 16 + y * 2 ^ 8 + z) stored s.cells }
    else s
act _ s = s

abbrev nor : List ℕ → Nor → Nor × List ℕ
nor xs s = elim (forward xs) [ some (len, command) ↦ (act command s, []) | none ↦ (s, []) ]

abbrev nor_spi : Spi
nor_spi = record {
  page_size = 4;
  pages = 4;
  flash_type = macronix_flash;
  bulk_erase = 1;
  sector_erase = 1;
}

nor_eq :
    (xs : List ℕ) (len : ℕ) (command : List ℕ) (s : Nor)
    → forward xs ≡ some (len, command)
    → nor xs s ≡ (act command s, [])
nor_eq xs len command s h = rw (nor, h) refl

length-fit : (n : ℕ) (xs : List ℕ) → length (fit n xs) ≡ n
length-fit zero xs = refl
length-fit (suc n) [] = ap suc (length-fit n [])
length-fit (suc n) (x ∷ xs) = ap suc (length-fit n xs)

fit-fit : (n : ℕ) (xs : List ℕ) → fit n (fit n xs) ≡ fit n xs
fit-fit zero xs = refl
fit-fit (suc n) [] = ap (λ t. 0 ∷ t) (fit-fit n [])
fit-fit (suc n) (x ∷ xs) = ap (λ t. x ∷ t) (fit-fit n xs)

and_false : (b : Bool) → (b && false) ≡ false
and_false true = refl
and_false false = refl

-- What a page program command does to the flash.
program_eq :
    (a : ℕ) (bytes : List ℕ) (s : Nor)
    → All IsByte bytes
    → a < 2 ^ 24
    → send nor (addressed 0x02 a ++ fit 4 bytes) 63 s
      ≡ (if s.on then record s { cells = overlay a (fit 4 bytes) s.cells } else s)
unfolding spi_command act
program_eq a bytes s small_bytes small =
    let e : a / 2 ^ 16 % 256 * 2 ^ 16 + a / 2 ^ 8 % 256 * 2 ^ 8 + a % 256 ≡ a =
      omega (arith, small) in
    let f =
      forward-frame (addressed 0x02 a ++ fit 4 bytes) 63
        (omega arith, (omega arith, (omega arith, (omega arith, fit-All 4 bytes small_bytes))))
        (omega arith) in
    ap (λ r. r.0) (nor_eq _ _ _ s f) ∙ rw (fit-fit 4 bytes, e) refl

nor_stores :
    (a x : ℕ) (bytes : List ℕ) (s : Nor)
    → s.on ≡ true
    → All IsByte bytes
    → a + 4 ≤ 2 ^ 24
    → a ≤ x
    → x < a + 4
    → (send nor (addressed 0x02 a ++ fit 4 bytes) 63 s).cells x ≡ get_or (fit 4 bytes) (x - a) 0
nor_stores a x bytes s on small_bytes small lo hi =
    let low : leb a x ≡ true = ground (arith, lo) in
    let high : ltb x (a + 4) ≡ true = ground (arith, hi) in
    ap (λ t. t.cells x) (program_eq a bytes s small_bytes (omega (arith, small)))
    ∙ rw (on, length-fit 4 bytes, low, high) refl

nor_leaves :
    (a x : ℕ) (bytes : List ℕ) (s : Nor)
    → All IsByte bytes
    → a + 4 ≤ 2 ^ 24
    → (x < a) ⊎ (a + 4 ≤ x)
    → (send nor (addressed 0x02 a ++ fit 4 bytes) 63 s).cells x ≡ s.cells x
nor_leaves a x bytes s small_bytes small out =
    ap (λ t. t.cells x) (program_eq a bytes s small_bytes (omega (arith, small))) ∙ kept s.on
  where
    outside : (leb a x && ltb x (a + length (fit 4 bytes))) ≡ false
    outside = rw (length-fit 4 bytes) (elim out [
      | inl lt ↦ (let e : leb a x ≡ false = ground (arith, lt) in rw e refl)
      | inr le ↦ (let e : ltb x (a + 4) ≡ false = ground (arith, le) in rw e (and_false (leb a x)))
    ])

    kept :
        (on : Bool)
        → (if on then record s { cells = overlay a (fit 4 bytes) s.cells } else s).cells x
          ≡ s.cells x
    kept true = rw outside refl
    kept false = refl

nor-Programs : Programs nor (λ s. s.cells) (λ s. s.on ≡ true) nor_spi
unfolding spi_command spi_check spi_write_check retry frame unframe act bit_rev flip_bits
nor-Programs = record {
  enables = λ s. refl;
  enable_keeps = λ s x. refl;
  stays_enabled = λ s h. h;
  write_check_keeps = λ s x. refl;
  check_keeps = λ s x. refl;
  ready = λ s. refl;
  commit_keeps = λ i x s. refl;
  stores = λ i x bytes s on small_bytes small erased lo hi.
      nor_stores (i * 4) x bytes s on small_bytes small lo hi;
  leaves = λ i x bytes s small_bytes small out. nor_leaves (i * 4) x bytes s small_bytes small out;
}

-- An erased flash.
abbrev erased : Nor
erased = record { cells = λ x. 0xff; on = false }

abbrev six : List ℕ
six = 1 ∷ 2 ∷ 3 ∷ 4 ∷ 5 ∷ 6 ∷ []

spi_write-Matches_example :
    ((spi_write nor 0 six 48 nor_spi erased).1 ≡ true)
    × Matches ((spi_write nor 0 six 48 nor_spi erased).0.cells) six 0 6
spi_write-Matches_example =
    spi_write-Matches nor (λ s. s.cells) (λ s. s.on ≡ true) nor_spi nor-Programs refl 0 48 six
      erased
      (omega arith, (omega arith, (omega arith, (omega arith, (omega arith, (omega arith, tt))))))
      (omega arith) (omega arith) (λ x lo hi. refl)
