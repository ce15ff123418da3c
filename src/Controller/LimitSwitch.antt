-- ===== src/Controller/LimitSwitch.antt =====
-- arduino/slcan_controller/LimitSwitch.cpp and LimitSwitch.h. The value of `digitalRead` is an
-- argument. The sketch has no limit switch yet.
use pi_industrial_robottools.Base.{
  ℕ, ◌≡◌, refl, Bool, true, false, not, ◌&&◌, List, [], ◌∷◌, ◌==◌, if◌then◌else◌, arith,
}
use pi_industrial_robottools.Controller.Board.{Call, pin_mode, input_pullup}

pub record LimitSwitch : Type 0 where
  pub pin : ℕ
  pub last_state : ℕ

-- `LimitSwitch::LimitSwitch`
unfoldable pub init : ℕ → ℕ → LimitSwitch × List Call
init pin level = (record { pin = pin; last_state = level }, pin_mode pin input_pullup ∷ [])

-- `LimitSwitch::engaged`
unfoldable pub engaged : ℕ → Bool
engaged level = if level == 0 then false else true

-- `LimitSwitch::triggered`
unfoldable pub triggered : ℕ → LimitSwitch → LimitSwitch × Bool
triggered p s =
    if (s.last_state == 0) && not (p == 0)
    then (record s { last_state = p }, true)
    else (record s { last_state = p }, false)

-- The answers of a row of polls that read the levels of a list.
pub poll : List ℕ → LimitSwitch → List Bool
poll [] s = []
poll (p ∷ ps) s = (triggered p s).1 ∷ poll ps (triggered p s).0

-- The rising edges of a row of levels, after the level `prev`.
pub edges : ℕ → List ℕ → List Bool
edges prev [] = []
edges prev (p ∷ ps) = (not (engaged prev) && engaged p) ∷ edges p ps

-- Polled over any row of levels, the switch reports its rising edges: it answers true exactly at
-- the polls that read it engaged after one that did not.
pub poll-edges : (ps : List ℕ) (s : LimitSwitch) → poll ps s ≡ edges s.last_state ps
unfolding poll edges triggered engaged
poll-edges [] s = refl
poll-edges (p ∷ ps) s = ground (arith, poll-edges ps (record s { last_state = p }))
