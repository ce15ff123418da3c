-- ===== src/Papilio/Chain/Align.antt =====
-- The clocks that `shiftDR` of papilio-prog/jtag.cpp puts in front to align the data.
use pi_industrial_robottools.Base.{
  ℕ, zero, suc, ◌+◌, ◌-◌, ◌*◌, ◌<◌, ◌≤◌, ◌≡◌, refl, arith, leb, false, ◌==◌, Bool-cases, inl, inr,
}
use pi_industrial_robottools.Papilio.IoBase.{Result}
use Result.{ok}
use pi_industrial_robottools.Papilio.Chain.{Jtag, align_pre, dr_pre}

align_pre-Aligns :
    (fuel align post up m : ℕ)
    → 0 < align
    → up ≡ m * align
    → up ≤ post + align
    → post + 2 ≤ fuel + up
    → 0 < fuel
    → (pre k : ℕ) × (align_pre fuel align post up ≡ ok pre)
      × (0 < pre)
      × (pre ≤ align)
      × (pre + post ≡ k * align)
unfolding align_pre
align_pre-Aligns zero align post up m a e l f z = absurd (omega (arith, z))
align_pre-Aligns (suc fuel) align post up m a e l f z = elim (Bool-cases (leb up post)) [
  | inl more ↦
      let next : up + align ≡ suc m * align = omega (arith, e) in
      rw more (
        align_pre-Aligns fuel align post (up + align) (suc m) a next (ground arith) (omega arith)
          (ground arith))
  | inr done ↦ rw done (up - post, m, refl, ground arith, omega arith, ground arith)
]

-- With an alignment that is not 0, the loop of `shiftDR` ends with between one clock in front and
-- as many as the alignment, and these and the bits behind the device add up to a multiple of it.
pub dr_pre-Aligns :
    (align post : ℕ) (j : Jtag)
    → 0 < align
    → (pre k : ℕ) × (dr_pre align post j ≡ ok pre)
      × (0 < pre)
      × (pre ≤ align)
      × (pre + post ≡ k * align)
unfolding dr_pre
dr_pre-Aligns align post j a =
    let ne : (align == 0) ≡ false = ground arith in
    rw ne (
      align_pre-Aligns (post + 2) align post 0 0 a (omega arith) (omega arith) (omega arith)
        (omega arith))
