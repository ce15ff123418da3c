-- ===== src/Controller/Timer.antt =====
-- arduino/slcan_controller/MTimer.cpp and MTimer.h. `unsigned long` has 32 bits; the value of
-- `millis()` is an argument.
use pi_industrial_robottools.Base.{
  ℕ, ◌+◌, ◌-◌, ◌^◌, ◌<◌, ◌≡◌, Bool, true, false, leb, if◌then◌else◌, arith,
}
use pi_industrial_robottools.Base.Word.{u32}

pub record Timer : Type 0 where
  pub ms : ℕ
  pub last : ℕ

-- `MTimer::MTimer`
unfoldable pub init : ℕ → ℕ → Timer
init ms now = record { ms = ms; last = now }

-- The milliseconds since the last reset: `now - _last` in unsigned arithmetic.
abbrev pub elapsed : ℕ → Timer → ℕ
elapsed now t = u32 (now + 2 ^ 32 - t.last)

-- `MTimer::timedout`
unfoldable pub timedout : ℕ → Timer → Timer × Bool
timedout now t = if leb t.ms (elapsed now t) then (record t { last = now }, true) else (t, false)

-- `MTimer::reset`
unfoldable pub reset : ℕ → Timer → Timer
reset now t = record t { last = now }

-- The time since power-up, counted without end, is `start` when the timer was reset and `start +
-- d` now. The counter of `millis()` may wrap in between: for less than 2 ^ 32 ms the timer fires
-- exactly when its period has passed, and then it counts from now on; else it does not change.
pub timedout_eq :
    (t : Timer) (start d : ℕ)
    → t.last ≡ u32 start
    → d < 2 ^ 32
    → timedout (u32 (start + d)) t
      ≡ (if leb t.ms d then (record t { last = u32 (start + d) }, true) else (t, false))
unfolding timedout
timedout_eq t start d e h = let k : elapsed (u32 (start + d)) t ≡ d = omega arith in rw k
