-- ===== src/Papilio/Spi/Write/Flash.antt =====
-- A flash that takes page program commands, for `Spi_Write` of papilio-prog/progalgspi.cpp, and what
-- stands in the buffers that are sent to it.
use pi_industrial_robottools.Base.{
  ℕ, zero, suc, ◌+◌, ◌-◌, ◌*◌, ◌^◌, ◌≤◌, ◌<◌, ◌≡◌, refl, ◌⊎◌, inl, inr, arith, Bool, true, false,
  List, [], ◌∷◌, ◌++◌, ◌==◌, take, drop, get_or, All, ◌||◌, Bool-cases, ==_iff,
}
use pi_industrial_robottools.Papilio.Spi.{
  Spi, sst_flash, macronix_flash, generic, fit, send, retry, retries,
}
use pi_industrial_robottools.Papilio.Spi.Frame.{IsByte}
use pi_industrial_robottools.Papilio.Spi.Erase.{check, write_check}
use pi_industrial_robottools.Papilio.Spi.Write.{commit_page}
use pi_industrial_robottools.Papilio.Spi.Verify.Compare.{addressed}

-- The bytes from `lo` up to `hi` are erased.
abbrev pub IsErased : (ℕ → ℕ) → ℕ → ℕ → Type 0
IsErased f lo hi = (x : ℕ) → lo ≤ x → x < hi → f x ≡ 0xff

-- A flash whose bytes are `mem`. It can be enabled for writing, which a check of the status does not
-- undo. Then a page program command stores its bytes in a page that is erased, and no other byte
-- changes. It is ready again before the last check of a row, and takes no notice of the command 0x88.
pub record Programs {S : Type 0} (shift : List ℕ → S → S × List ℕ) (mem : S → ℕ → ℕ)
    (enabled : S → Type 0) (p : Spi) : Type 0 where
  pub enables : (s : S) → enabled (send shift (0x06 ∷ []) 7 s)
  pub enable_keeps : (s : S) (x : ℕ) → mem (send shift (0x06 ∷ []) 7 s) x ≡ mem s x
  pub stays_enabled : (s : S) → enabled s → enabled ((write_check shift p s).0)
  pub write_check_keeps : (s : S) (x : ℕ) → mem ((write_check shift p s).0) x ≡ mem s x
  pub check_keeps : (s : S) (x : ℕ) → mem ((check shift p s).0) x ≡ mem s x
  pub ready : (s : S) → (retry retries (check shift p) s).1 ≡ true
  pub commit_keeps : (i x : ℕ) (s : S) → mem (commit_page shift i p s) x ≡ mem s x
  pub stores :
      (i x : ℕ) (bytes : List ℕ) (s : S)
      → enabled s
      → All IsByte bytes
      → i * p.page_size + p.page_size ≤ 2 ^ 24
      → IsErased (mem s) (i * p.page_size) (i * p.page_size + p.page_size)
      → i * p.page_size ≤ x
      → x < i * p.page_size + p.page_size
      → mem
          (send shift
            (addressed 0x02 (i * p.page_size) ++ fit p.page_size bytes)
            (8 * (p.page_size + 4) - 1)
            s)
          x
        ≡ get_or (fit p.page_size bytes) (x - i * p.page_size) 0
  pub leaves :
      (i x : ℕ) (bytes : List ℕ) (s : S)
      → All IsByte bytes
      → i * p.page_size + p.page_size ≤ 2 ^ 24
      → (x < i * p.page_size) ⊎ (i * p.page_size + p.page_size ≤ x)
      → mem
          (send shift
            (addressed 0x02 (i * p.page_size) ++ fit p.page_size bytes)
            (8 * (p.page_size + 4) - 1)
            s)
          x
        ≡ mem s x

pub get_or-fit : (n k : ℕ) (bytes : List ℕ) → k < n → get_or (fit n bytes) k 0 ≡ get_or bytes k 0
get_or-fit zero k bytes lt = absurd (omega (arith, lt))
get_or-fit (suc n) zero [] lt = refl
get_or-fit (suc n) (suc k) [] lt = get_or-fit n k [] (omega (arith, lt))
get_or-fit (suc n) zero (b ∷ bytes) lt = refl
get_or-fit (suc n) (suc k) (b ∷ bytes) lt = get_or-fit n k bytes (omega (arith, lt))

pub get_or-take : (n k : ℕ) (bytes : List ℕ) → k < n → get_or (take n bytes) k 0 ≡ get_or bytes k 0
get_or-take zero k bytes lt = absurd (omega (arith, lt))
get_or-take (suc n) k [] lt = refl
get_or-take (suc n) zero (b ∷ bytes) lt = refl
get_or-take (suc n) (suc k) (b ∷ bytes) lt = get_or-take n k bytes (omega (arith, lt))

pub get_or-drop : (n k : ℕ) (bytes : List ℕ) → get_or (drop n bytes) k 0 ≡ get_or bytes (n + k) 0
get_or-drop zero k bytes = let e : 0 + k ≡ k = omega arith in rw e refl
get_or-drop (suc n) k [] = refl
get_or-drop (suc n) k (b ∷ bytes) =
    let e : suc n + k ≡ suc (n + k) = omega arith in rw e (get_or-drop n k bytes)

pub not_sst : (f : ℕ) → ((f == macronix_flash) || (f == generic)) ≡ true → (f == sst_flash) ≡ false
not_sst f h = elim (Bool-cases (f == sst_flash)) [
  | inl sst ↦
      let e : f ≡ sst_flash = (==_iff f sst_flash).0 sst in
      let bad : ((sst_flash == macronix_flash) || (sst_flash == generic)) ≡ true = rw e at h in cc
  | inr other ↦ other
]

-- A row of checks keeps what each check keeps.
pub retry-keeps :
    {S : Type 0} (P : S → Type 0) (n : ℕ) (test : S → S × Bool) (s : S)
    → ((s : S) → P s → P ((test s).0))
    → P s
    → P ((retry n test s).0)
unfolding retry
retry-keeps P zero test s keeps h = h
retry-keeps P (suc n) test s keeps h = elim (Bool-cases ((test s).1)) [
  | inl good ↦ rw (retry, good) (keeps s h)
  | inr bad ↦ rw (retry, bad) (retry-keeps P n test ((test s).0) keeps (keeps s h))
]
