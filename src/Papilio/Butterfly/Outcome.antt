-- ===== src/Papilio/Butterfly/Outcome.antt =====
-- What the exit status of papilio-prog/butterfly.cpp says.
use pi_industrial_robottools.Base.{
  ℕ, Bool, Option, ◌≡◌, ◌≢◌, refl, inl, inr, true, false, none, some, arith, List, Option-cases,
}
use pi_industrial_robottools.Papilio.BitFile.{BitFile}
use pi_industrial_robottools.Papilio.Butterfly.Main.{
  Opt, Options, Parts, with_appended, appended, check_options, finish_flash, open_any, run_flash,
  run_fpga, run_identified, run, main,
}

module _ {S : Type 0} (p : Parts S) where
  unidentified : (o : Options) (id : ℕ) (u : S) → id ≡ 0 → (run_identified p o id u).0 ≡ 1
  unfolding run_identified
  unidentified o id u e = rw e refl

  identified :
      (o : Options) (t : S)
      → (run_identified p o (p.get_id t).0 (p.get_id t).1).0 ≡ 0
      → (p.get_id t).0 ≢ 0
  identified o t ok e =
      let one = unidentified o (p.get_id t).0 (p.get_id t).1 e in omega (arith, ok, one)

  -- Whatever its options and its parts do, if the programmer exits with 0, one of the two cables
  -- was opened and the chain gave an identifier that is not 0.
  pub run_identifies :
      (o : Options) (s : S)
      → (run p o s).0 ≡ 0
      → (t : S) × (open_any p s ≡ some t) × ((p.get_id t).0 ≢ 0)
  unfolding run
  run_identifies o s ok = elim (Option-cases (check_options p o)) [
    | inl usage ↦ let bad : 255 ≡ 0 = rw (usage, run) at ok in absurd (omega (arith, bad))
    | inr (false, wrong) ↦ let bad : 1 ≡ 0 = rw (wrong, run) at ok in absurd (omega (arith, bad))
    | inr (true, fits) ↦ elim (Option-cases (open_any p s)) [
      | inl closed ↦ let bad : 1 ≡ 0 = rw (fits, closed, run) at ok in absurd (omega (arith, bad))
      | inr (t, opened) ↦ (t, opened, identified o t (rw (fits, opened, run) at ok))
    ]
  ]

  -- What is claimed in place of the result of programming or erasing the flash.
  module _ (claim : Bool → S → Bool) where
    abbrev claimed : Option (Bool × S) → Option (Bool × S)
    claimed none = none
    claimed (some (result, s)) = some (claim result s, s)

    abbrev pub claiming : Parts S
    claiming = record p {
      program_spi = λ f o s. claimed (p.program_spi f o s);
      erase_spi = λ s. claimed (p.erase_spi s);
    }

    finish_claimed :
        (again : Bool) (family : ℕ) (s : S) (r : Option (Bool × S))
        → finish_flash claiming again family s (claimed r) ≡ finish_flash p again family s r
    finish_claimed again family s none = refl
    finish_claimed again family s (some (result, s')) = refl

    appended_claimed :
        (o : Options) (f : Option BitFile) (s : S) (go go' : BitFile → ℕ × S)
        → ((g : BitFile) → go g ≡ go' g)
        → with_appended claiming o f s go ≡ with_appended p o f s go'
    appended_claimed o none s go go' e = refl
    appended_claimed o (some f) s go go' e = elim (Option-cases (appended p o.append_str f)) [
      | inl none_e ↦ ground (arith, none_e)
      | inr ((g, true), k) ↦ ground (arith, k, e g)
      | inr ((g, false), k) ↦ ground (arith, k)
    ]

    flash_claimed :
        (family : ℕ) (o : Options) (fn : List ℕ) (s : S)
        → run_flash claiming family o fn s ≡ run_flash p family o fn s
    unfolding run_flash
    flash_claimed family o fn s = elim (Option-cases (p.read_file true fn)) [
      | inl closed ↦ ground (arith, closed)
      | inr (bscan, read) ↦ grind (arith, read, finish_claimed, appended_claimed)
    ]

    fpga_claimed :
        (family : ℕ) (o : Options) (s : S) → run_fpga claiming family o s ≡ run_fpga p family o s
    unfolding run_fpga
    fpga_claimed family o s = ground (arith, appended_claimed o)

    identified_claimed :
        (o : Options) (id : ℕ) (s : S) → run_identified claiming o id s ≡ run_identified p o id s
    unfolding run_identified
    identified_claimed o id s = grind (arith, flash_claimed, fpga_claimed)

    check_claimed : (o : Options) → check_options claiming o ≡ check_options p o
    unfolding check_options
    check_claimed o = refl

    run_claimed : (o : Options) (s : S) → run claiming o s ≡ run p o s
    unfolding run
    run_claimed o s = grind (arith, identified_claimed, check_claimed o)

    -- Whatever its options and its parts do, the exit status of the programmer and the state it
    -- leaves do not depend on the results that the programming and the erasure of the flash
    -- return: they stay the same whatever results are claimed in their place.
    pub main-claiming : (opts : List Opt) (s : S) → main claiming opts s ≡ main p opts s
    unfolding main
    main-claiming opts s = grind (arith, run_claimed)
