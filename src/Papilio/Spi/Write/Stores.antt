-- ===== src/Papilio/Spi/Write/Stores.antt =====
-- What `Spi_Write` of papilio-prog/progalgspi.cpp leaves in a flash that takes page program commands.
use native.Mathlib.Nat.{div-add-mod', mod-lt}
use pi_industrial_robottools.Base.{
  ℕ, zero, suc, ◌+◌, ◌-◌, ◌*◌, ◌/◌, ◌%◌, ◌^◌, ◌≤◌, ◌<◌, ◌≡◌, refl, ap, ◌∙◌, ◌⊎◌, inl, inr, arith,
  Bool, true, false, List, [], ◌∷◌, ◌++◌, ltb, ◌==◌, if◌then◌else◌, take, drop, get_or, All,
  Bool-cases,
}
use pi_industrial_robottools.Papilio.Spi.{
  Spi, sst_flash, is_plain, is_linear, fit, bytes_of, set_command_rw, send, retry, retries,
}
use pi_industrial_robottools.Papilio.Spi.Frame.{IsByte}
use pi_industrial_robottools.Papilio.Spi.Erase.{check, write_check}
use pi_industrial_robottools.Papilio.Spi.Write.{
  page_command, enable_write, commit_page, write_page, write_pages, write_by_pages, spi_write,
}
use pi_industrial_robottools.Papilio.Spi.Verify.Compare.{addressed, Matches}
use pi_industrial_robottools.Papilio.Spi.Write.Flash.{
  IsErased, Programs, get_or-fit, get_or-take, get_or-drop, not_sst, retry-keeps,
}

module _ {S : Type 0} (shift : List ℕ → S → S × List ℕ) (mem : S → ℕ → ℕ) (enabled : S → Type 0)
    (p : Spi) (law : Programs shift mem enabled p) (plain : is_plain p ≡ true) where
  enable_write-enabled :
      (s : S)
      → enabled (enable_write shift p s) × ((x : ℕ) → mem (enable_write shift p s) x ≡ mem s x)
  enable_write-enabled s =
      let start = send shift (0x06 ∷ []) 7 s in
      rw (enable_write, plain)
        (
          retry-keeps enabled retries (write_check shift p) start law.stays_enabled (law.enables s),
          retry-keeps (λ t. (x : ℕ) → mem t x ≡ mem s x) retries (write_check shift p) start
              (λ t h x. law.write_check_keeps t x ∙ h x) (law.enable_keeps s),
        )

  -- A page is stored, and the rest of the flash is as it was.
  record Stored (r : S × Bool) (s : S) (lo hi : ℕ) (bytes : List ℕ) : Type 0 where
    succeeds : r.1 ≡ true
    holds : (x : ℕ) → lo ≤ x → x < hi → mem r.0 x ≡ get_or bytes (x - lo) 0
    others : (x : ℕ) → (x < lo) ⊎ (hi ≤ x) → mem r.0 x ≡ mem s x

  -- Two calls, one after the other, for bytes that follow one another.
  Stored-then :
      (r : S × Bool) (s : S) (next : S → S × Bool) (lo mid hi : ℕ) (xs ys bytes : List ℕ)
      → lo ≤ mid
      → mid ≤ hi
      → IsErased (mem s) lo hi
      → Stored r s lo mid xs
      → ((s' : S) → IsErased (mem s') mid hi → Stored (next s') s' mid hi ys)
      → ((k : ℕ) → k < mid - lo → get_or xs k 0 ≡ get_or bytes k 0)
      → ((k : ℕ) → get_or ys k 0 ≡ get_or bytes (mid - lo + k) 0)
      → Stored (elim r.1 [ true ↦ next r.0 | false ↦ (r.0, false) ]) s lo hi bytes
  Stored-then (s', false) s next lo mid hi xs ys bytes h k erased f g ex ey =
      (let bad = f.succeeds in cc)
  Stored-then (s', true) s next lo mid hi xs ys bytes h k erased f g ex ey =
      let n = g s' (λ x lx xh. f.others x (inr lx) ∙ erased x (omega (arith, lx, h)) xh) in
      record {
        succeeds = n.succeeds;
        holds = λ x lx xh. elim (Bool-cases (ltb x mid)) [
          | inl below ↦
              let lt : x < mid = ground arith in
              n.others x (inl lt) ∙ f.holds x lx lt ∙ ex (x - lo) (omega (arith, lt, lx))
          | inr above ↦
              let le : mid ≤ x = ground arith in
              let e : mid - lo + (x - mid) ≡ x - lo = omega (arith, le, h) in
              rw e at (n.holds x le xh ∙ ey (x - mid))
        ];
        others = λ x out. elim out [
          | inl lt ↦ n.others x (inl (omega (arith, lt, h))) ∙ f.others x (inl lt)
          | inr le ↦ n.others x (inr le) ∙ f.others x (inr (omega (arith, le, k)))
        ];
      }

  plain_linear : is_linear p ≡ true
  plain_linear = elim (Bool-cases (p.flash_type == sst_flash)) [
    | inl sst ↦ rw sst refl
    | inr other ↦ rw (other, plain) refl
  ]

  linear_command : (a : ℕ) → set_command_rw p 0x02 a ≡ addressed 0x02 a
  unfolding set_command_rw
  linear_command a = rw plain_linear refl

  page_command_eq : (i : ℕ) → page_command i p ≡ addressed 0x02 (i * p.page_size)
  page_command_eq i =
      ap (λ b. if b then set_command_rw p 0x02 (i * p.page_size) else 0x84 ∷ 0 ∷ 0 ∷ 0 ∷ []) plain
      ∙ linear_command (i * p.page_size)

  write_page-Stored :
      (bytes : List ℕ) (i : ℕ) (s : S)
      → All IsByte bytes
      → i * p.page_size + p.page_size ≤ 2 ^ 24
      → IsErased (mem s) (i * p.page_size) (i * p.page_size + p.page_size)
      → Stored
          (write_page shift bytes i p s)
          s
          (i * p.page_size)
          (i * p.page_size + p.page_size)
          bytes
  unfolding write_page
  write_page-Stored bytes i s small_bytes small erased =
      let a = i * p.page_size in
      let s1 = enable_write shift p s in
      let (on, same) = enable_write-enabled s in
      let s2 =
        send shift (addressed 0x02 a ++ fit p.page_size bytes) (8 * (p.page_size + 4) - 1) s1 in
      let s3 = commit_page shift i p s2 in
      let after : (x : ℕ) → mem ((retry retries (check shift p) s3).0) x ≡ mem s2 x =
        retry-keeps (λ t. (x : ℕ) → mem t x ≡ mem s2 x) retries (check shift p) s3
          (λ t h x. law.check_keeps t x ∙ h x) (λ x. law.commit_keeps i x s2) in
      rw (page_command_eq i) (record {
        succeeds = law.ready s3;
        holds = λ x lo hi.
            after x
            ∙ law.stores i x bytes s1 on small_bytes small (λ y ly hy. same y ∙ erased y ly hy) lo
                hi
            ∙ get_or-fit p.page_size (x - a) bytes (omega (arith, lo, hi));
        others = λ x out. after x ∙ law.leaves i x bytes s1 small_bytes small out ∙ same x;
      })

  All-take : (n : ℕ) (bs : List ℕ) → All IsByte bs → All IsByte (take n bs)
  All-take zero bs h = tt
  All-take (suc n) [] h = tt
  All-take (suc n) (b ∷ bs) h = (h.0, All-take n bs h.1)

  All-drop : (n : ℕ) (bs : List ℕ) → All IsByte bs → All IsByte (drop n bs)
  All-drop zero bs h = h
  All-drop (suc n) [] h = tt
  All-drop (suc n) (b ∷ bs) h = All-drop n bs h.1

  write_pages-Stored :
      (n i lo hi : ℕ) (bytes : List ℕ) (s : S)
      → All IsByte bytes
      → lo ≡ i * p.page_size
      → hi ≡ lo + n * p.page_size
      → hi ≤ 2 ^ 24
      → IsErased (mem s) lo hi
      → Stored (write_pages shift n i bytes p s) s lo hi bytes
  unfolding write_pages
  write_pages-Stored zero i lo hi bytes s small_bytes el eh small erased = record {
    succeeds = refl;
    holds = λ x lx xh. absurd (omega (arith, lx, xh, eh));
    others = λ x out. refl;
  }
  write_pages-Stored (suc n) i lo hi bytes s small_bytes el eh small erased =
      let step : hi ≡ lo + p.page_size + n * p.page_size = grind arith in
      let next : lo + p.page_size ≡ (i + 1) * p.page_size = grind arith in
      let first : Stored (write_page shift (take p.page_size bytes) i p s) s lo (lo + p.page_size)
          (take p.page_size bytes) =
        rw el (
          write_page-Stored (take p.page_size bytes) i s (All-take p.page_size bytes small_bytes)
            (omega (arith, step, el, small))
            (λ x lx xh. erased x (omega (arith, lx, el)) (omega (arith, xh, el, step)))) in
      Stored-then (write_page shift (take p.page_size bytes) i p s) s
        (write_pages shift n (i + 1) (drop p.page_size bytes) p) lo (lo + p.page_size) hi
        (take p.page_size bytes) (drop p.page_size bytes) bytes (omega arith) (omega (arith, step))
        erased first
        (λ s' erased'.
          write_pages-Stored n (i + 1) (lo + p.page_size) hi (drop p.page_size bytes) s'
            (All-drop p.page_size bytes small_bytes) next step small erased')
        (λ k lt. get_or-take p.page_size k bytes (omega (arith, lt)))
        (λ k.
          (let e : lo + p.page_size - lo + k ≡ p.page_size + k = omega arith in
            rw e (get_or-drop p.page_size k bytes)))

  -- Behind pages that were written, the rest.
  rest_eq :
      (b : Bool) (next : S → S × Bool) (r : S × Bool)
      → r.1 ≡ true
      → elim r.1 [ true ↦ if b then next r.0 else r | false ↦ r ]
        ≡ (if b then elim r.1 [ true ↦ next r.0 | false ↦ (r.0, false) ] else r)
  rest_eq true next (s', true) h = refl
  rest_eq false next (s', true) h = refl
  rest_eq b next (s', false) h = cc

  -- For a Macronix or generic flash that takes page program commands, with linear addresses below
  -- 2 ^ 24, pages of some size, and erased where the pages of the data go, `Spi_Write` of bytes
  -- returns true, and the flash holds the data afterwards. The flash is ready again before the
  -- last check of a row, checks do not undo a write enable or change a byte, and the command
  -- 0x88, where it is sent, has no effect.
  pub spi_write-Matches :
      (u length : ℕ) (bytes : List ℕ) (s : S)
      → All IsByte bytes
      → 0 < p.page_size
      → let top = bytes_of length / p.page_size * p.page_size + p.page_size in
        top ≤ 2 ^ 24
        → IsErased (mem s) 0 top
        → ((spi_write shift u bytes length p s).1 ≡ true)
          × Matches (mem ((spi_write shift u bytes length p s).0)) bytes 0 (bytes_of length)
  unfolding spi_write write_by_pages
  spi_write-Matches u length bytes s small_bytes pos small erased =
      let w = bytes_of length in
      let d = w / p.page_size in
      let m = d * p.page_size in
      let total : m + w % p.page_size ≡ w = div-add-mod' w p.page_size in
      let short : w % p.page_size < p.page_size = mod-lt w pos in
      let other : (p.flash_type == sst_flash) ≡ false = not_sst p.flash_type plain in
      let r = write_pages shift d 0 bytes p s in
      let next = write_page shift (drop m bytes) d p in
      let pages : Stored r s 0 m bytes =
        write_pages-Stored d 0 0 m bytes s small_bytes (omega arith) (omega arith)
          (omega (arith, small)) (λ x lx xh. erased x lx (omega (arith, xh))) in
      elim (Bool-cases (ltb m w)) [
        | inl more ↦
            let all : Stored (elim r.1 [ true ↦ next r.0 | false ↦ (r.0, false) ]) s 0
                (m + p.page_size) bytes =
              Stored-then r s next 0 m (m + p.page_size) bytes (drop m bytes) bytes (omega arith)
                (omega arith) erased pages
                (λ s' erased'.
                  write_page-Stored (drop m bytes) d s' (All-drop m bytes small_bytes) small
                    erased')
                (λ k lt. refl)
                (λ k. (let e : m - 0 + k ≡ m + k = omega arith in rw e (get_or-drop m k bytes))) in
            rw (other, rest_eq (ltb m w) next r pages.succeeds, more)
              (
                all.succeeds,
                λ x lx xh.
                    (let e : x - 0 ≡ x = omega arith in
                      rw e at (all.holds x lx (omega (arith, xh, total, short)))),
              )
        | inr done ↦
            let le : w ≤ m = ground arith in
            rw (other, rest_eq (ltb m w) next r pages.succeeds, done)
              (
                pages.succeeds,
                λ x lx xh.
                    (let e : x - 0 ≡ x = omega arith in
                      rw e at (pages.holds x lx (omega (arith, xh, le)))),
              )
      ]
