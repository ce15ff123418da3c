-- ===== src/Papilio/Tap/Route.antt =====
-- The route of `setTapState` is a route of the standard, and reaches its goal.
use pi_industrial_robottools.Base.{◌≡◌, ◌≢◌, refl, arith, true}
use pi_industrial_robottools.Papilio.Tap.{TapState, test_logic_reset, unknown, same, route}
use pi_industrial_robottools.Papilio.Tap.Standard.{tap_next}

-- Whatever state is asked for, each round of `setTapState` from a known state sends a TMS bit
-- that takes a TAP controller of IEEE 1149.1 to the state that the round assumes.
pub route-tap_next :
    (s state : TapState) → s ≢ unknown → tap_next s (route s state).tms ≡ (route s state).next
unfolding route
route-tap_next unknown state h = absurd (h refl)
route-tap_next test_logic_reset state h = ground arith
route-tap_next _ state h = ground arith

pub same_iff : (s t : TapState) → same s t ≡ true → s ≡ t
same_iff test_logic_reset t h = ground arith
same_iff _ t h = ground arith
