-- ===== src/Papilio/Spi/Program/Verified.antt =====
-- What `ProgramSpi` and `EraseSpi` of papilio-prog/progalgspi.cpp promise when they hold.
use pi_industrial_robottools.Base.{
  ℕ, zero, suc, ◌+◌, ◌*◌, ◌^◌, ◌≤◌, ◌<◌, ◌≡◌, refl, ◌∙◌, arith, Bool, true, false, List, map, ltb,
  if◌then◌else◌, get_or, replicate,
}
use pi_industrial_robottools.Papilio.BitFile.{BitFile, cell_value}
use pi_industrial_robottools.Papilio.Spi.{Spi, is_linear, bytes_of}
use pi_industrial_robottools.Papilio.Spi.Erase.{spi_erase}
use pi_industrial_robottools.Papilio.Spi.Verify.{spi_verify}
use pi_industrial_robottools.Papilio.Spi.Verify.Compare.{Reads, Matches, spi_verify-Finds}
use pi_industrial_robottools.Papilio.Spi.Program.{
  SpiOptions, verifies, bypass, jprogram, user1, step_if, then_if, unusable, erase_spi, write_steps,
  program_steps, program_spi,
}

module _ {S : Type 0} (shift : List ℕ → S → S × List ℕ) (shift_ir : ℕ → S → S) (mem : S → ℕ → ℕ)
    (law : Reads shift mem) (ir_keeps : (i x : ℕ) (s : S) → mem (shift_ir i s) x ≡ mem s x) where
  -- A comparison that is made last and holds.
  step_if-verified :
      (bytes : List ℕ) (length : ℕ) (p : Spi) (r : S × Bool)
      → is_linear p ≡ true
      → 8 * (p.page_size + 4) < 2 ^ 16
      → 0 < p.page_size
      → bytes_of length ≤ 2 ^ 24
      → (step_if true (spi_verify shift bytes length p) r).1 ≡ true
      → Matches (mem (step_if true (spi_verify shift bytes length p) r).0) bytes 0 (bytes_of length)
  step_if-verified bytes length p (s, false) linear fits pos small h = cc
  step_if-verified bytes length p (s, true) linear fits pos small h =
      let f = spi_verify-Finds shift mem law p linear fits bytes length s pos small in
      λ x lo hi. f.keeps x ∙ f.sound h x lo hi

  then_if-Matches :
      (f : S → S) (r : S × Bool) (bytes : List ℕ) (hi : ℕ)
      → ((x : ℕ) (s : S) → mem (f s) x ≡ mem s x)
      → (r.1 ≡ true → Matches (mem r.0) bytes 0 hi)
      → (then_if f r).1 ≡ true
      → Matches (mem (then_if f r).0) bytes 0 hi
  then_if-Matches f (s, false) bytes hi keeps m h = cc
  then_if-Matches f (s, true) bytes hi keeps m h = λ x lo lt. keeps x s ∙ m refl x lo lt

  program_steps-verified :
      (past : ℕ) (options : SpiOptions) (bytes : List ℕ) (length : ℕ) (p : Spi) (s : S)
      → verifies options ≡ true
      → is_linear p ≡ true
      → 8 * (p.page_size + 4) < 2 ^ 16
      → 0 < p.page_size
      → bytes_of length ≤ 2 ^ 24
      → (program_steps shift shift_ir past options bytes length p s).1 ≡ true
      → Matches
          (mem (program_steps shift shift_ir past options bytes length p s).0)
          bytes
          0
          (bytes_of length)
  unfolding program_steps
  program_steps-verified past SpiOptions.erase_only bytes length p s vf linear fits pos small h = cc
  program_steps-verified past SpiOptions.write_only bytes length p s vf linear fits pos small h = cc
  program_steps-verified past SpiOptions.verify_only bytes length p s vf linear fits pos small h =
      let w : S × Bool = write_steps shift shift_ir past SpiOptions.verify_only bytes length p s in
      then_if-Matches (shift_ir bypass) (step_if true (spi_verify shift bytes length p) w) bytes
        (bytes_of length) (λ x s'. ir_keeps bypass x s')
        (step_if-verified bytes length p w linear fits pos small) h
  program_steps-verified past SpiOptions.full bytes length p s vf linear fits pos small h =
      let w : S × Bool = write_steps shift shift_ir past SpiOptions.full bytes length p s in
      then_if-Matches (λ s'. shift_ir bypass (shift_ir jprogram s'))
        (step_if true (spi_verify shift bytes length p) w) bytes (bytes_of length)
        (λ x s'. ir_keeps bypass x (shift_ir jprogram s') ∙ ir_keeps jprogram x s')
        (step_if-verified bytes length p w linear fits pos small) h

  -- Two refusals that were not made.
  passed :
      (b c : Bool) (s : S) (r : S × Bool)
      → (if b then (s, false) else (if c then (s, false) else r)).1 ≡ true
      → (b ≡ false) × (c ≡ false)
  passed true c s r h = cc
  passed false true s r h = cc
  passed false false s r h = (refl, refl)

  -- If `ProgramSpi` with an option that verifies returns true, then the flash holds the bytes of
  -- the file afterwards, from the address 0 on, for a flash that answers read commands with its
  -- bytes and is not changed by them, nor by a shift of an instruction. The identified flash has
  -- linear addresses below 2 ^ 24, and pages of some size that a read command can count.
  pub program_spi-verified :
      (u past : ℕ) (options : SpiOptions) (file : BitFile) (p : Spi) (s : S)
      → let r = program_spi shift shift_ir u past options file p s in
        verifies options ≡ true
        → is_linear r.0 ≡ true
        → 8 * (r.0.page_size + 4) < 2 ^ 16
        → 0 < r.0.page_size
        → r.0.pages * r.0.page_size ≤ 2 ^ 24
        → r.2 ≡ true
        → Matches (mem r.1) (map (cell_value u) file.buffer) 0 file.size
  unfolding program_spi
  program_spi-verified u past options file p s vf linear fits pos small h =
      let q = unusable shift shift_ir p (shift_ir user1 s) in
      let bytes = map (cell_value u) file.buffer in
      let length = file.size * 8 in
      let r = program_steps shift shift_ir past options bytes length q.0 q.1 in
      let ok = passed q.2 (ltb (q.0.pages * q.0.page_size * 8) length) q.1 r h in
      let within : file.size ≤ q.0.pages * q.0.page_size = (let e = ok.1 in ground arith) in
      let size : bytes_of length ≡ file.size = omega arith in
      let m =
        program_steps-verified past options bytes length q.0 q.1 vf linear fits pos
          (omega (arith, size, within, small)) (rw ok.0 at (rw ok.1 at h)) in
      rw (ok.0, ok.1) (rw size at m)

  get_or-replicate : (n x a : ℕ) → x < n → get_or (replicate n a) x 0 ≡ a
  get_or-replicate zero x a lt = absurd (omega (arith, lt))
  get_or-replicate (suc n) zero a lt = refl
  get_or-replicate (suc n) (suc x) a lt = get_or-replicate n x a (omega (arith, lt))

  -- If `EraseSpi` returns true, then every byte of the flash is 0xff afterwards, for a flash that
  -- answers read commands with its bytes and is not changed by them, nor by a shift of an
  -- instruction. The identified flash has linear addresses below 2 ^ 24, and pages of some size
  -- that a read command can count.
  pub erase_spi-verified :
      (p : Spi) (s : S)
      → let r = erase_spi shift shift_ir p s in
        is_linear r.0 ≡ true
        → 8 * (r.0.page_size + 4) < 2 ^ 16
        → 0 < r.0.page_size
        → r.0.pages * r.0.page_size ≤ 2 ^ 24
        → r.2 ≡ true
        → (x : ℕ) → x < r.0.pages * r.0.page_size
        → mem r.1 x ≡ 0xff
  unfolding erase_spi
  erase_spi-verified p s linear fits pos small h x lt =
      let q = unusable shift shift_ir p (shift_ir user1 s) in
      let len = q.0.page_size * q.0.pages in
      let e = spi_erase shift q.0 q.1 in
      let bytes = replicate len 0xff in
      let v = step_if true (spi_verify shift bytes (8 * len) q.0) e in
      let ok = passed q.2 false q.1 (then_if (shift_ir bypass) v) h in
      let size : bytes_of (8 * len) ≡ len = omega arith in
      let comm : len ≡ q.0.pages * q.0.page_size = grind arith in
      let m =
        then_if-Matches (shift_ir bypass) v bytes (bytes_of (8 * len))
          (λ y s'. ir_keeps bypass y s')
          (step_if-verified bytes (8 * len) q.0 e linear fits pos
            (omega (arith, size, comm, small)))
          (rw ok.0 at h) in
      let lt' : x < len = omega (arith, comm, lt) in
      rw ok.0 ((rw size at m) x (omega arith) lt' ∙ get_or-replicate len x 0xff lt')
