-- ===== src/Loggers/Water.antt =====
-- pulsemeter/waterlog/waterlog-ekm.c: the loop of `main`. The SPI bus and the clock are not part of
-- the repository: a turn is given the word that a transfer reads, which is nothing when it fails,
-- and the time. Of a line of the log the time and the count are kept; the volume and the flow are
-- functions of the count.
use pi_industrial_robottools.Base.{
  ℕ, zero, suc, ◌*◌, ◌/◌, ◌%◌, ◌^◌, Bool, List, [], ◌∷◌, ◌++◌, Option, none, some, ◌==◌,
  if◌then◌else◌, bit_or,
}

pub record Line : Type 0 where
  pub now : ℕ
  pub count : ℕ

-- `(rx & 0xffff0000) == 0xbeef0000`: what was sent came back through the chain.
abbrev pub passed_through : ℕ → Bool
passed_through rx = rx / 2 ^ 16 == 48_879

-- The two low bytes, swapped.
abbrev pub swapped : ℕ → ℕ
swapped rx = bit_or (rx % 2 ^ 8 * 2 ^ 8) (rx / 2 ^ 8 % 2 ^ 8)

-- What a turn logs for a count.
abbrev pub lines_for : ℕ → ℕ → ℕ → List Line
lines_for now zero zero = []
lines_for now zero (suc last) = record { now = now; count = 0 } ∷ []
lines_for now (suc n) last = record { now = now; count = suc n } ∷ []

-- The count of a transfer, when there is one.
abbrev pub count_of : Option ℕ → Option ℕ
count_of none = none
count_of (some rx) = if passed_through rx then some (swapped rx) else none

-- The loop, with `last_count`.
unfoldable pub log_water : List (Option ℕ × ℕ) → ℕ → List Line
log_water [] last_count = []
log_water ((transfer, now) ∷ rest) last_count = elim (count_of transfer) [
  | none ↦ log_water rest last_count
  | some count ↦ lines_for now count last_count ++ log_water rest count
]
