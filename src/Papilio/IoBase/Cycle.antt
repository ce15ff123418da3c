-- ===== src/Papilio/IoBase/Cycle.antt =====
-- `IOBase::cycleTCK` of papilio-prog/iobase.cpp: clocks with TMS low, in blocks.
use mathlib.Core.List.{append-nil}
use pi_industrial_robottools.Base.{
  ℕ, zero, suc, ◌+◌, ◌-◌, ◌<◌, ◌≡◌, ◌≢◌, refl, ap, ◌∙◌, inl, inr, arith, Bool, false, List, ◌∷◌,
  ◌++◌, Option, some, ltb, replicate, ◌==◌, if◌then◌else◌, Bool-cases,
}
use pi_industrial_robottools.Papilio.Tap.{TapState, test_logic_reset, unknown, same}
use pi_industrial_robottools.Papilio.Tap.Standard.{tap_run, tap_run-append, tap_run-low, IsStable}
use pi_industrial_robottools.Papilio.IoBase.{
  IoBase, txrx_block, flush_tms, chunk_bits, blocks, cycle_tck,
}
use pi_industrial_robottools.Papilio.IoBase.Buffer.{
  stream, sent, event_bits, flush_tms-IsValid, flush_tms-state, sent_after_flush,
}
use pi_industrial_robottools.Papilio.IoBase.InStep.{InStep, Keeps}

replicate-append : (m n : ℕ) → replicate m false ++ replicate n false ≡ replicate (m + n) false
replicate-append zero n = let e : 0 + n ≡ n = omega arith in rw e
replicate-append (suc m) n =
    let e : suc m + n ≡ suc (m + n) = omega arith in rw e (ap (◌∷◌ false) (replicate-append m n))

low_bits :
    (tdi : Option (List ℕ)) (n : ℕ) → event_bits (txrx_block tdi false n false) ≡ replicate n false
low_bits tdi zero = refl
low_bits tdi (suc n) =
    let some_bits : (suc n == 0) ≡ false = ground arith in
    let one_less : suc n - 1 ≡ n = omega arith in
    let more : n + 1 ≡ suc n = omega arith in
    rw (some_bits, one_less) (replicate-append n 1 ∙ ap (λ k. replicate k false) more)

blocks-sent :
    (fuel : ℕ) (tdi : Bool) (n : ℕ) → n < fuel → sent (blocks fuel tdi n) ≡ replicate n false
unfolding blocks
blocks-sent zero tdi n h = absurd (omega arith)
blocks-sent (suc fuel) tdi n h = elim (Bool-cases (ltb chunk_bits n)) [
  | inl more ↦
      let e : chunk_bits + (n - chunk_bits) ≡ n = ground arith in
      rw more (
        ap (◌++◌ (replicate chunk_bits false))
          (blocks-sent fuel tdi (n - chunk_bits) (ground arith))
        ∙ replicate-append chunk_bits (n - chunk_bits)
        ∙ ap (λ k. replicate k false) e)
  | inr last ↦ rw last (append-nil _ ∙ low_bits (some (replicate 128 (if tdi then 255 else 0))) n)
]

not_reset : (s : TapState) → s ≢ test_logic_reset → same s test_logic_reset ≡ false
not_reset test_logic_reset h = absurd (h refl)
not_reset unknown h = refl
not_reset _ h = refl

-- In a known state other than the reset state that TMS low does not leave, with the cable and the
-- device in step, `cycleTCK` returns after any number of clocks and leaves both in that state.
pub cycle_tck-Keeps :
    (at : TapState) (n : ℕ) (tdi : Bool) (io : IoBase)
    → InStep at io
    → io.current_state ≢ unknown
    → io.current_state ≢ test_logic_reset
    → IsStable io.current_state
    → Keeps at (cycle_tck n tdi io) io.current_state
unfolding cycle_tck
cycle_tck-Keeps at n tdi io step known other stable =
    let low = blocks (suc n) tdi n in
    record {
      after = record (flush_tms io) { out = (flush_tms io).out ++ low };
      returns = rw (flush_tms-state io, not_reset io.current_state other) refl;
      valid = record { fits = (flush_tms-IsValid io).fits; clean = (flush_tms-IsValid io).clean };
      state = flush_tms-state io;
      in_step =
          ap (tap_run at) (
            sent_after_flush low io
            ∙ ap (◌++◌ (stream io)) (blocks-sent (suc n) tdi n (omega arith)))
          ∙ tap_run-append at (stream io) (replicate n false)
          ∙ ap (λ t. tap_run t (replicate n false)) (step known)
          ∙ tap_run-low n io.current_state stable;
    }
