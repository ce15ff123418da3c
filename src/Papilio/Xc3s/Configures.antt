-- ===== src/Papilio/Xc3s/Configures.antt =====
-- What an FPGA gets of the steps of papilio-prog/progalgxc3s.cpp.
use mathlib.Core.Option.{some-injective}
use pi_industrial_robottools.Base.{
  ℕ, zero, suc, ◌+◌, ◌*◌, ◌≤◌, ◌<◌, ◌≡◌, ◌↔◌, refl, subst, sym, ap, ◌∙◌, inl, inr, Bool, true,
  false, ◌||◌, List, [], ◌∷◌, ◌++◌, Option, none, some, ◌==◌, ltb, tests, if◌then◌else◌, arith,
  Bool-cases, Option-cases,
}
use pi_industrial_robottools.Papilio.Xc3s.{
  Step, ProgAlgXc3s, write_ir, jprogram, cfg_in, jstart, bypass, is_cleared, is_up, isc_dna,
  wait_cleared, wait_up, read_dna, flow_enable, flow_disable, flow_program_legacy, array_program,
  all_steps,
}

-- The configuration logic as the steps reach it: the instruction, the data that came in under
-- CFG_IN since the memory was cleared by JPROGRAM, and the clocks of the last start-up.
pub record Fpga : Type 0 where
  pub ir : ℕ
  pub cleared : Bool
  pub loaded : List (List ℕ × ℕ)
  pub started : ℕ

abbrev pub load : List ℕ → ℕ → Fpga → Fpga
load bytes n f = if f.ir == cfg_in then record f { loaded = f.loaded ++ ((bytes, n) ∷ []) } else f

abbrev pub instruct : ℕ → Fpga → Fpga
instruct i f =
    if i == jprogram
    then record { ir = i; cleared = true; loaded = []; started = 0 }
    else (if i == jstart then record f { ir = i; started = 0 } else record f { ir = i })

abbrev pub take_step : Step → Fpga → Fpga
take_step (Step.shift_ir i reads) f = instruct i f
take_step (Step.shift_dr bytes n reads) f = load bytes n f
take_step (Step.cycle_tck n) f = if f.ir == jstart then record f { started = f.started + n } else f
take_step (Step.usleep us) f = f

abbrev pub take_steps : List Step → Fpga → Fpga
take_steps [] f = f
take_steps (s ∷ ss) f = take_steps ss (take_step s f)

take_steps-append :
    (ss ts : List Step) (f : Fpga) → take_steps (ss ++ ts) f ≡ take_steps ts (take_steps ss f)
take_steps-append [] ts f = refl
take_steps-append (s ∷ ss) ts f = take_steps-append ss ts (take_step s f)

-- A read that is cleared ends the wait, if there is fuel for it.
wait_cleared_ends :
    (fuel : ℕ) (reads : ℕ → ℕ) (i k : ℕ)
    → k < fuel
    → is_cleared (reads (i + k)) ≡ true
    → (steps : List Step) × (b : ℕ) × (wait_cleared fuel reads i ≡ some (steps, b))
unfolding wait_cleared
wait_cleared_ends zero reads i k h c = absurd (omega (arith, h))
wait_cleared_ends (suc fuel) reads i zero h c =
    let here : i + 0 ≡ i = omega arith in
    let done : is_cleared (reads i) ≡ true = rw here at c in
    (Step.shift_ir cfg_in true ∷ [], reads i, rw done refl)
wait_cleared_ends (suc fuel) reads i (suc k) h c = elim (Bool-cases (is_cleared (reads i))) [
  | inl done ↦ (Step.shift_ir cfg_in true ∷ [], reads i, rw done refl)
  | inr more ↦
      let next : i + suc k ≡ suc i + k = omega arith in
      let (steps, b, got) =
        wait_cleared_ends fuel reads (suc i) k (omega (arith, h)) (rw next at c) in
      (Step.shift_ir cfg_in true ∷ steps, b, rw (more, got) refl)
]

-- The waits load nothing.
wait_cleared-loads :
    (fuel : ℕ) (reads : ℕ → ℕ) (i : ℕ) (f : Fpga) {steps : List Step} {b : ℕ}
    → wait_cleared fuel reads i ≡ some (steps, b)
    → take_steps steps f ≡ record f { ir = cfg_in }
unfolding wait_cleared
wait_cleared-loads zero reads i f {steps} {b} e =
    let never : Path (Option (List Step × ℕ)) none (some (steps, b)) = e in cc
wait_cleared-loads (suc fuel) reads i f {steps} {b} e = elim (Bool-cases (is_cleared (reads i))) [
  | inl done ↦ ap (λ p. take_steps p.0 f) (sym (some-injective _ _ (rw done at e)))
  | inr more ↦ elim (Option-cases (wait_cleared fuel reads (suc i))) [
    | inl out ↦
        let never : Path (Option (List Step × ℕ)) none (some (steps, b)) = rw (more, out) at e in cc
    | inr (r, got) ↦
        ap (λ p. take_steps p.0 f) (sym (some-injective _ _ (rw (more, got) at e)))
        ∙ wait_cleared-loads fuel reads (suc i) (record f { ir = cfg_in }) got
  ]
]

wait_up-loads :
    (left : ℕ) (reads : ℕ → ℕ) (b i : ℕ) (f : Fpga)
    → f.ir ≡ bypass
    → take_steps (wait_up left reads b i).0 f ≡ f
unfolding wait_up
wait_up-loads zero reads b i f e = refl
wait_up-loads (suc left) reads b i f e = elim (Bool-cases (is_up b)) [
  | inl done ↦ rw done refl
  | inr more ↦ rw more (
      wait_up-loads left reads (reads i) (suc i) (record f { ir = bypass }) refl
      ∙ ap (λ x. record f { ir = x }) (sym e))
]

flow_enable-loads :
    (p : ProgAlgXc3s) (f : Fpga)
    → take_step (write_ir jprogram) (take_steps (flow_enable p) f)
      ≡ record { ir = jprogram; cleared = true; loaded = []; started = 0 }
unfolding flow_enable
flow_enable-loads p f = refl

-- The read of the identification loads nothing.
read_dna-loads :
    (p : ProgAlgXc3s) (f : Fpga) → (i : ℕ) × (take_steps (read_dna p) f ≡ record f { ir = i })
read_dna-loads p f =
    elim (Bool-cases
      ((p.family == 0x11) || (p.family == 0x13) || (p.family == 0x1c) || (p.family == 0x20))) [
        | inl has ↦ (isc_dna, rw has refl)
        | inr not ↦ (f.ir, rw not refl)
      ]

flow_program_legacy-loads :
    (bytes : List ℕ) (len : ℕ) (p : ProgAlgXc3s) (f : Fpga)
    → take_steps (flow_program_legacy bytes len p) f ≡ record {
      ir = bypass;
      cleared = f.cleared;
      loaded = f.loaded ++ ((bytes, len) ∷ []);
      started = 2 * p.tck_len;
    }
unfolding flow_program_legacy
flow_program_legacy-loads bytes len p f =
    let e : 0 + 2 * p.tck_len ≡ 2 * p.tck_len = omega arith in
    ap
      (λ n. record {
        ir = bypass;
        cleared = f.cleared;
        loaded = f.loaded ++ ((bytes, len) ∷ []);
        started = n;
      })
      e

flow_disable-loads :
    (p : ProgAlgXc3s) (f : Fpga) → take_steps (flow_disable p) f ≡ record f { ir = bypass }
unfolding flow_disable
flow_disable-loads p f = refl

-- What the FPGA has after `array_program`.
abbrev pub configured : List ℕ → ℕ → ProgAlgXc3s → Fpga
configured bytes len p = record {
  ir = bypass;
  cleared = true;
  loaded = (bytes, len) ∷ [];
  started = 2 * p.tck_len;
}

programmed :
    (waits ups : List Step) (bytes : List ℕ) (len : ℕ) (p : ProgAlgXc3s) (f : Fpga)
    → ((g : Fpga) → take_steps waits g ≡ record g { ir = cfg_in })
    → ((g : Fpga) → g.ir ≡ bypass → take_steps ups g ≡ g)
    → take_steps (all_steps waits ups bytes len p) f ≡ configured bytes len p
programmed waits ups bytes len p f w u =
    let last = flow_disable p ++ ups in
    let load = flow_program_legacy bytes len p ++ last in
    let after = read_dna p ++ load in
    let clear : Fpga = record { ir = cfg_in; cleared = true; loaded = []; started = 0 } in
    let (i, dna) = read_dna-loads p clear in
    take_steps-append (flow_enable p) (write_ir jprogram ∷ waits ++ after) f
    ∙ ap (take_steps (waits ++ after)) (flow_enable-loads p f)
    ∙ take_steps-append waits after _
    ∙ ap (take_steps after) (w _)
    ∙ take_steps-append (read_dna p) load clear
    ∙ ap (take_steps load) dna
    ∙ take_steps-append (flow_program_legacy bytes len p) last (record clear { ir = i })
    ∙ ap (take_steps last) (flow_program_legacy-loads bytes len p (record clear { ir = i }))
    ∙ take_steps-append (flow_disable p) ups (configured bytes len p)
    ∙ ap (take_steps ups) (flow_disable-loads p (configured bytes len p))
    ∙ u (configured bytes len p) refl

array_program_of :
    (fuel : ℕ) (clears ups : ℕ → ℕ) (bytes : List ℕ) (len : ℕ) (p : ProgAlgXc3s) {waits : List Step}
    {b : ℕ}
    → wait_cleared fuel clears 0 ≡ some (waits, b)
    → array_program fuel clears ups bytes len p
      ≡ some (all_steps waits (wait_up 50 ups b 0).0 bytes len p, (wait_up 50 ups b 0).1 == 50)
unfolding array_program
array_program_of fuel clears ups bytes len p got = rw (got, array_program) refl

-- If one of the reads that the wait allows for says that the memory is cleared, `array_program`
-- returns, and an FPGA that gets its steps has then been cleared by JPROGRAM, has since taken in
-- exactly the data of the file, once, under CFG_IN, has had twice `tck_len` clocks of start-up
-- after JSTART, and stands in BYPASS, whatever it was before and whatever else the chain
-- captures.
pub array_program_configures :
    (fuel : ℕ) (clears ups : ℕ → ℕ) (bytes : List ℕ) (len : ℕ) (p : ProgAlgXc3s) (f : Fpga)
    → (k : ℕ) → k < fuel
    → is_cleared (clears k) ≡ true
    → (steps : List Step) × (gives_up : Bool) × (array_program fuel clears ups bytes len p
        ≡ some (steps, gives_up))
      × (take_steps steps f ≡ configured bytes len p)
array_program_configures fuel clears ups bytes len p f k enough ready =
    let zero_add : 0 + k ≡ k = omega arith in
    let (waits, b, got) = wait_cleared_ends fuel clears 0 k enough (rw zero_add ready) in
    (
      all_steps waits (wait_up 50 ups b 0).0 bytes len p,
      (wait_up 50 ups b 0).1 == 50,
      array_program_of fuel clears ups bytes len p got,
      programmed waits (wait_up 50 ups b 0).0 bytes len p f
          (λ g. wait_cleared-loads fuel clears 0 g got) (λ g e. wait_up-loads 50 ups b 0 g e),
    )

-- The wait gives up when no byte but the last says that the device is up.
wait_up_gives_up :
    (left : ℕ) (reads : ℕ → ℕ) (b i : ℕ)
    → is_up b ≡ false
    → ((k : ℕ) → i ≤ k → suc k < i + left → is_up (reads k) ≡ false)
    → (wait_up left reads b i).1 ≡ i + left
unfolding wait_up
wait_up_gives_up zero reads b i down h = omega arith
wait_up_gives_up (suc zero) reads b i down h = rw down (omega arith)
wait_up_gives_up (suc (suc left)) reads b i down h =
    let next = h i (omega arith) (omega arith) in
    let rest =
      wait_up_gives_up (suc left) reads (reads i) (suc i) next
        (λ k le lt. h k (omega (arith, le)) (omega (arith, lt))) in
    rw down (omega (arith, rest))

wait_up_down :
    (left : ℕ) (reads : ℕ → ℕ) (b i : ℕ)
    → (wait_up (suc left) reads b i).1 ≡ i + suc left
    → (is_up b ≡ false) × ((k : ℕ) → i ≤ k → k < i + left → is_up (reads k) ≡ false)
unfolding wait_up
wait_up_down zero reads b i e = elim (Bool-cases (is_up b)) [
  | inl up ↦ let same : i ≡ i + 1 = rw up at e in absurd (omega (arith, same))
  | inr down ↦ (down, λ k le lt. absurd (omega (arith, le, lt)))
]
wait_up_down (suc left) reads b i e = elim (Bool-cases (is_up b)) [
  | inl up ↦ let same : i ≡ i + suc (suc left) = rw up at e in absurd (omega (arith, same))
  | inr down ↦
      let later : (wait_up (suc left) reads (reads i) (suc i)).1 ≡ i + suc (suc left) =
        rw down at e in
      let (now, rest) = wait_up_down left reads (reads i) (suc i) (omega (arith, later)) in
      (
        down,
        λ k le lt. elim (Bool-cases (ltb i k)) [
          | inl after ↦ rest k (omega tests) (omega (arith, lt))
          | inr at ↦
              let here : i ≡ k = ground arith in subst (λ j. is_up (reads j) ≡ false) here now
        ],
      )
]

-- The count that `array_program` takes for a device that failed to configure is reached exactly
-- when neither the byte read before the wait nor any of the first 49 reads of it says that the
-- device is up; the 50th read is not looked at.
pub wait_up_iff :
    (reads : ℕ → ℕ) (b : ℕ)
    → ((wait_up 50 reads b 0).1 ≡ 50)
      ↔ ((is_up b ≡ false) × ((k : ℕ) → k < 49 → is_up (reads k) ≡ false))
wait_up_iff reads b = (
  λ e. let (down, rest) = wait_up_down 49 reads b 0 e in (down, λ k lt. rest k (omega arith) lt),
  λ (down, rest). wait_up_gives_up 50 reads b 0 down (λ k le lt. rest k (omega (arith, lt))),
)
