-- ===== src/Papilio/Tap.antt =====
-- The TAP states of papilio-prog/iobase.h, and the two switches of `IOBase::setTapState` in
-- papilio-prog/iobase.cpp.
pub mod Standard
pub mod Route
use pi_industrial_robottools.Base.{
  ℕ, zero, suc, Bool, true, false, ◌||◌, List, [], ◌∷◌, ◌++◌, Option, none, some, ◌==◌,
  if◌then◌else◌,
}

-- `tapState_t`
pub data TapState : Type 0 where
  test_logic_reset run_test_idle : TapState
  select_dr_scan capture_dr shift_dr exit1_dr pause_dr exit2_dr update_dr : TapState
  select_ir_scan capture_ir shift_ir exit1_ir pause_ir exit2_ir update_ir : TapState
  unknown : TapState

-- The values of the enumeration.
abbrev pub value : TapState → ℕ
value test_logic_reset = 0
value run_test_idle = 1
value select_dr_scan = 2
value capture_dr = 3
value shift_dr = 4
value exit1_dr = 5
value pause_dr = 6
value exit2_dr = 7
value update_dr = 8
value select_ir_scan = 9
value capture_ir = 10
value shift_ir = 11
value exit1_ir = 12
value pause_ir = 13
value exit2_ir = 14
value update_ir = 15
value unknown = 999

abbrev pub same : TapState → TapState → Bool
same s t = value s == value t

-- The labels of an inner switch.
abbrev pub among : TapState → List TapState → Bool
among s [] = false
among s (t ∷ ts) = same s t || among s ts

-- A round of the loop: the TMS bit, and the state that the round assumes.
pub record Round : Type 0 where
  pub tms : Bool
  pub next : TapState

abbrev pub clock : Bool → TapState → Round
clock tms next = record { tms = tms; next = next }

-- `switch(current_state) { ... switch(state) ... }`. The default, for an unknown state, also calls
-- `tapTestLogicReset`.
unfoldable pub route : TapState → TapState → Round
route test_logic_reset state =
    if among state (test_logic_reset ∷ [])
    then clock true test_logic_reset
    else clock false run_test_idle
route run_test_idle state =
    if among state (run_test_idle ∷ [])
    then clock false run_test_idle
    else clock true select_dr_scan
route select_dr_scan state =
    if among state (capture_dr ∷ shift_dr ∷ exit1_dr ∷ pause_dr ∷ exit2_dr ∷ update_dr ∷ [])
    then clock false capture_dr
    else clock true select_ir_scan
route capture_dr state =
    if among state (shift_dr ∷ []) then clock false shift_dr else clock true exit1_dr
route shift_dr state =
    if among state (shift_dr ∷ []) then clock false shift_dr else clock true exit1_dr
route exit1_dr state =
    if among state (pause_dr ∷ exit2_dr ∷ shift_dr ∷ exit1_dr ∷ [])
    then clock false pause_dr
    else clock true update_dr
route pause_dr state =
    if among state (pause_dr ∷ []) then clock false pause_dr else clock true exit2_dr
route exit2_dr state =
    if among state (shift_dr ∷ exit1_dr ∷ pause_dr ∷ [])
    then clock false shift_dr
    else clock true update_dr
route update_dr state =
    if among state (run_test_idle ∷ [])
    then clock false run_test_idle
    else clock true select_dr_scan
route select_ir_scan state =
    if among state (capture_ir ∷ shift_ir ∷ exit1_ir ∷ pause_ir ∷ exit2_ir ∷ update_ir ∷ [])
    then clock false capture_ir
    else clock true test_logic_reset
route capture_ir state =
    if among state (shift_ir ∷ []) then clock false shift_ir else clock true exit1_ir
route shift_ir state =
    if among state (shift_ir ∷ []) then clock false shift_ir else clock true exit1_ir
route exit1_ir state =
    if among state (pause_ir ∷ exit2_ir ∷ shift_ir ∷ exit1_ir ∷ [])
    then clock false pause_ir
    else clock true update_ir
route pause_ir state =
    if among state (pause_ir ∷ []) then clock false pause_ir else clock true exit2_ir
route exit2_ir state =
    if among state (shift_ir ∷ exit1_ir ∷ pause_ir ∷ [])
    then clock false shift_ir
    else clock true update_ir
route update_ir state =
    if among state (run_test_idle ∷ [])
    then clock false run_test_idle
    else clock true select_dr_scan
route unknown state = clock true test_logic_reset
