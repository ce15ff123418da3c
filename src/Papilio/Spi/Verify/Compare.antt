-- ===== src/Papilio/Spi/Verify/Compare.antt =====
-- What `Spi_Verify` of papilio-prog/progalgspi.cpp finds out of a flash that answers read commands.
use native.Mathlib.Nat.{div-add-mod', mod-lt}
use pi_industrial_robottools.Base.{
  ℕ, zero, suc, ◌+◌, ◌-◌, ◌*◌, ◌/◌, ◌%◌, ◌^◌, ◌≤◌, ◌<◌, ◌≡◌, refl, ◌∙◌, sym, inl, inr, arith, Bool,
  true, false, List, [], ◌∷◌, ltb, ◌==◌, if◌then◌else◌, get_or, Bool-cases,
}
use pi_industrial_robottools.Papilio.Spi.{Spi, is_linear, bytes_of, set_command_rw, spi_command}
use pi_industrial_robottools.Papilio.Spi.Verify.{same_bytes, verify_page, verify_pages, spi_verify}

-- The bytes of a command with a 24-bit address.
abbrev pub addressed : ℕ → ℕ → List ℕ
addressed command a = command ∷ a / 2 ^ 16 % 256 ∷ a / 2 ^ 8 % 256 ∷ a % 256 ∷ []

-- A flash whose bytes are `mem`: a read command for `n` bytes answers, after four other bytes, what
-- stands at the address and behind it, and changes no byte. The count of bits has 16 bits.
pub record Reads {S : Type 0} (shift : List ℕ → S → S × List ℕ) (mem : S → ℕ → ℕ) : Type 0 where
  pub answers :
      (a n k : ℕ) (s : S)
      → a < 2 ^ 24
      → 8 * (n + 4) < 2 ^ 16
      → k < n
      → get_or ((spi_command shift (addressed 0x03 a) (8 * (n + 4)) s).1) (4 + k) 0 ≡ mem s (a + k)
  pub keeps :
      (a n x : ℕ) (s : S)
      → a < 2 ^ 24
      → 8 * (n + 4) < 2 ^ 16
      → mem ((spi_command shift (addressed 0x03 a) (8 * (n + 4)) s).0) x ≡ mem s x

-- The bytes from `lo` up to `hi` are those of a list.
abbrev pub Matches : (ℕ → ℕ) → List ℕ → ℕ → ℕ → Type 0
Matches f bytes lo hi = (x : ℕ) → lo ≤ x → x < hi → f x ≡ get_or bytes x 0

abbrev Agree : ℕ → List ℕ → ℕ → List ℕ → ℕ → Type 0
Agree n xs i ys j = (k : ℕ) → k < n → get_or xs (i + k) 0 ≡ get_or ys (j + k) 0

same_bytes-Agree :
    (n : ℕ) (xs : List ℕ) (i : ℕ) (ys : List ℕ) (j : ℕ)
    → same_bytes n xs i ys j ≡ true
    → Agree n xs i ys j
unfolding same_bytes
same_bytes-Agree zero xs i ys j h k lt = absurd (omega (arith, lt))
same_bytes-Agree (suc n) xs i ys j h zero lt =
    let ei : i + 0 ≡ i = omega arith in
    let ej : j + 0 ≡ j = omega arith in rw (ei, ej) (ground arith)
same_bytes-Agree (suc n) xs i ys j h (suc k) lt =
    let ei : i + suc k ≡ i + 1 + k = omega arith in
    let ej : j + suc k ≡ j + 1 + k = omega arith in
    rw (ei, ej) (same_bytes-Agree n xs (i + 1) ys (j + 1) (ground arith) k (omega arith))

Agree-same_bytes :
    (n : ℕ) (xs : List ℕ) (i : ℕ) (ys : List ℕ) (j : ℕ)
    → Agree n xs i ys j
    → same_bytes n xs i ys j ≡ true
unfolding same_bytes
Agree-same_bytes zero xs i ys j h = refl
Agree-same_bytes (suc n) xs i ys j h =
    let ei : i + 0 ≡ i = omega arith in
    let ej : j + 0 ≡ j = omega arith in
    let first : get_or xs i 0 ≡ get_or ys j 0 = rw (ei, ej) at (h 0 (omega arith)) in
    let rest = Agree-same_bytes n xs (i + 1) ys (j + 1) (λ k lt.
      let si : i + 1 + k ≡ i + suc k = omega arith in
      let sj : j + 1 + k ≡ j + suc k = omega arith in
      rw (si, sj) (h (suc k) (omega (arith, lt)))) in
    let e : (get_or xs i 0 == get_or ys j 0) ≡ true = ground arith in rw (e, rest)

module _ {S : Type 0} (shift : List ℕ → S → S × List ℕ) (mem : S → ℕ → ℕ) (law : Reads shift mem)
    (p : Spi) (linear : is_linear p ≡ true) (fits : 8 * (p.page_size + 4) < 2 ^ 16)
    (bytes : List ℕ) where
  -- What a call finds of the bytes from `lo` up to `hi`.
  pub record Finds (r : S × Bool) (s : S) (lo hi : ℕ) : Type 0 where
    pub sound : r.1 ≡ true → Matches (mem s) bytes lo hi
    pub complete : Matches (mem s) bytes lo hi → r.1 ≡ true
    pub keeps : (x : ℕ) → mem r.0 x ≡ mem s x

  -- The answer to the read command for `n` bytes from the page `i` on.
  abbrev page_read : ℕ → S → S × List ℕ
  page_read i s = spi_command shift (addressed 0x03 (i * p.page_size)) (8 * (p.page_size + 4)) s

  verify_page_eq :
      (n i : ℕ) (s : S)
      → verify_page shift n bytes i p s
        ≡ ((page_read i s).0, same_bytes n (page_read i s).1 4 bytes (i * p.page_size))
  unfolding verify_page set_command_rw
  verify_page_eq n i s = rw linear

  verify_page-Finds :
      (n i : ℕ) (s : S)
      → n ≤ p.page_size
      → i * p.page_size < 2 ^ 24
      → Finds (verify_page shift n bytes i p s) s (i * p.page_size) (i * p.page_size + n)
  verify_page-Finds n i s le small =
      let a = i * p.page_size in
      let answer = (page_read i s).1 in
      rw (verify_page_eq n i s) (record {
        sound = λ h x lo hi.
            let e : a + (x - a) ≡ x = omega (arith, lo) in
            let found = same_bytes-Agree n answer 4 bytes a h (x - a) (omega (arith, lo, hi)) in
            rw e at (
              sym (law.answers a p.page_size (x - a) s small fits (omega (arith, lo, hi, le)))
              ∙ found);
        complete = λ m. Agree-same_bytes n answer 4 bytes a (λ k lt.
            law.answers a p.page_size k s small fits (omega (arith, lt, le))
            ∙ m (a + k) (omega arith) (omega (arith, lt)));
        keeps = λ x. law.keeps a p.page_size x s small fits;
      })

  -- Two calls, one after the other, about bytes that follow one another.
  Finds-then :
      (r : S × Bool) (s : S) (next : S → S × Bool) (lo mid hi : ℕ)
      → lo ≤ mid
      → mid ≤ hi
      → Finds r s lo mid
      → ((s' : S) → Finds (next s') s' mid hi)
      → Finds (elim r.1 [ true ↦ next r.0 | false ↦ (r.0, false) ]) s lo hi
  Finds-then (s', true) s next lo mid hi h k f g = record {
    sound = λ e x lx xh. elim (Bool-cases (ltb x mid)) [
      | inl below ↦ f.sound refl x lx (ground arith)
      | inr above ↦ sym (f.keeps x) ∙ (g s').sound e x (ground arith) xh
    ];
    complete = λ m. (g s').complete (λ x lx xh. f.keeps x ∙ m x (omega (arith, lx, h)) xh);
    keeps = λ x. (g s').keeps x ∙ f.keeps x;
  }
  Finds-then (s', false) s next lo mid hi h k f g = record {
    sound = λ e. cc;
    complete = λ m. f.complete (λ x lx xm. m x lx (omega (arith, xm, k)));
    keeps = f.keeps;
  }

  verify_pages-Finds :
      (n i lo hi : ℕ) (s : S)
      → 0 < p.page_size
      → lo ≡ i * p.page_size
      → hi ≡ lo + n * p.page_size
      → hi ≤ 2 ^ 24
      → Finds (verify_pages shift n i bytes p s) s lo hi
  unfolding verify_pages
  verify_pages-Finds zero i lo hi s pos el eh small = record {
    sound = λ e x lx xh. absurd (omega (arith, lx, xh, eh));
    complete = λ m. refl;
    keeps = λ x. refl;
  }
  verify_pages-Finds (suc n) i lo hi s pos el eh small =
      let step : hi ≡ lo + p.page_size + n * p.page_size = grind arith in
      let next : lo + p.page_size ≡ (i + 1) * p.page_size = grind arith in
      let first : Finds (verify_page shift p.page_size bytes i p s) s lo (lo + p.page_size) =
        rw el
          (verify_page-Finds p.page_size i s (omega arith) (omega (arith, step, el, pos, small))) in
      Finds-then (verify_page shift p.page_size bytes i p s) s
        (verify_pages shift n (i + 1) bytes p) lo (lo + p.page_size) hi (omega arith)
        (omega (arith, step)) first
        (λ s'. verify_pages-Finds n (i + 1) (lo + p.page_size) hi s' pos next step small)

  -- The last bytes, behind the pages that are full.
  abbrev rest_page : ℕ → S → S × Bool
  rest_page w s' =
      if ltb (w / p.page_size * p.page_size) w
      then verify_page shift (w % p.page_size) bytes (w / p.page_size) p s'
      else (s', true)

  then_eq :
      (b : Bool) (f : S → S × Bool) (r : S × Bool)
      → elim r.1 [ true ↦ if b then f r.0 else r | false ↦ r ]
        ≡ elim r.1 [ true ↦ if b then f r.0 else (r.0, true) | false ↦ (r.0, false) ]
  then_eq b f (s, true) = refl
  then_eq b f (s, false) = refl

  rest_page-Finds :
      (w : ℕ) (s' : S)
      → 0 < p.page_size
      → w ≤ 2 ^ 24
      → Finds (rest_page w s') s' (w / p.page_size * p.page_size) w
  rest_page-Finds w s' pos small =
      let d = w / p.page_size in
      let total : d * p.page_size + w % p.page_size ≡ w = div-add-mod' w p.page_size in
      let short : w % p.page_size < p.page_size = mod-lt w pos in
      elim (Bool-cases (ltb (d * p.page_size) w)) [
        | inl more ↦
            let lt : d * p.page_size < w = ground arith in
            let found =
              verify_page-Finds (w % p.page_size) d s' (omega (arith, short))
                (omega (arith, total, lt, small)) in
            rw (more) (rw total at found)
        | inr done ↦ rw done (record {
          sound = λ e x lx xh.
              (let le : w ≤ d * p.page_size = ground arith in absurd (omega (arith, lx, xh, le)));
          complete = λ m. refl;
          keeps = λ x. refl;
        })
      ]

  -- For a flash that answers read commands with its bytes and is not changed by them, with linear
  -- addresses below 2 ^ 24 and pages of some size that a read command can count, `Spi_Verify`
  -- returns true exactly when the flash holds the data from the address 0 on, and changes no
  -- byte.
  pub spi_verify-Finds :
      (length : ℕ) (s : S)
      → 0 < p.page_size
      → bytes_of length ≤ 2 ^ 24
      → Finds (spi_verify shift bytes length p s) s 0 (bytes_of length)
  unfolding spi_verify
  spi_verify-Finds length s pos small =
      let w = bytes_of length in
      let d = w / p.page_size in
      let total : d * p.page_size + w % p.page_size ≡ w = div-add-mod' w p.page_size in
      let r = verify_pages shift d 0 bytes p s in
      let pages =
        verify_pages-Finds d 0 0 (d * p.page_size) s pos (omega arith) (omega arith)
          (omega (arith, total, small)) in
      rw (then_eq (ltb (d * p.page_size) w) (verify_page shift (w % p.page_size) bytes d p) r) (
        Finds-then r s (rest_page w) 0 (d * p.page_size) w (omega arith) (omega (arith, total))
          pages (λ s'. rest_page-Finds w s' pos small))
