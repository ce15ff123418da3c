-- ===== src/Papilio/Tap/Standard.antt =====
-- The TAP controller of a device, by IEEE 1149.1: where a clock with a TMS bit takes it.
use pi_industrial_robottools.Base.{
  Bool, true, false, List, [], ◌∷◌, ◌++◌, ◌≡◌, ◌≢◌, refl, ap, ◌∙◌, ℕ, zero, suc, replicate,
}
use pi_industrial_robottools.Papilio.Tap.{
  TapState, test_logic_reset, run_test_idle, select_dr_scan, capture_dr, shift_dr, exit1_dr,
  pause_dr, exit2_dr, update_dr, select_ir_scan, capture_ir, shift_ir, exit1_ir, pause_ir, exit2_ir,
  update_ir, unknown,
}

abbrev pub tap_next : TapState → Bool → TapState
tap_next test_logic_reset false = run_test_idle
tap_next test_logic_reset true = test_logic_reset
tap_next run_test_idle false = run_test_idle
tap_next run_test_idle true = select_dr_scan
tap_next select_dr_scan false = capture_dr
tap_next select_dr_scan true = select_ir_scan
tap_next capture_dr false = shift_dr
tap_next capture_dr true = exit1_dr
tap_next shift_dr false = shift_dr
tap_next shift_dr true = exit1_dr
tap_next exit1_dr false = pause_dr
tap_next exit1_dr true = update_dr
tap_next pause_dr false = pause_dr
tap_next pause_dr true = exit2_dr
tap_next exit2_dr false = shift_dr
tap_next exit2_dr true = update_dr
tap_next update_dr false = run_test_idle
tap_next update_dr true = select_dr_scan
tap_next select_ir_scan false = capture_ir
tap_next select_ir_scan true = test_logic_reset
tap_next capture_ir false = shift_ir
tap_next capture_ir true = exit1_ir
tap_next shift_ir false = shift_ir
tap_next shift_ir true = exit1_ir
tap_next exit1_ir false = pause_ir
tap_next exit1_ir true = update_ir
tap_next pause_ir false = pause_ir
tap_next pause_ir true = exit2_ir
tap_next exit2_ir false = shift_ir
tap_next exit2_ir true = update_ir
tap_next update_ir false = run_test_idle
tap_next update_ir true = select_dr_scan
tap_next unknown tms = unknown

-- The state after a row of clocks.
abbrev pub tap_run : TapState → List Bool → TapState
tap_run s [] = s
tap_run s (b ∷ bs) = tap_run (tap_next s b) bs

pub tap_run-append :
    (s : TapState) (bs cs : List Bool) → tap_run s (bs ++ cs) ≡ tap_run (tap_run s bs) cs
tap_run-append s [] cs = refl
tap_run-append s (b ∷ bs) cs = tap_run-append (tap_next s b) bs cs

-- A state in which a clock with TMS low changes nothing.
abbrev pub IsStable : TapState → Type 0
IsStable s = tap_next s false ≡ s

pub tap_run-low : (n : ℕ) (s : TapState) → IsStable s → tap_run s (replicate n false) ≡ s
tap_run-low zero s h = refl
tap_run-low (suc n) s h = ap (λ t. tap_run t (replicate n false)) h ∙ tap_run-low n s h

-- Five clocks with TMS high reset a device from any state.
pub tap_run-reset : (s : TapState) → s ≢ unknown → tap_run s (replicate 5 true) ≡ test_logic_reset
tap_run-reset unknown h = absurd (h refl)
tap_run-reset test_logic_reset h = refl
tap_run-reset _ h = refl
