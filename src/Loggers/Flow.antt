-- ===== src/Loggers/Flow.antt =====
-- What the log of pulsemeter/waterlog/waterlog-ekm.c keeps of the counts that it read.
use pi_industrial_robottools.Base.{
  ℕ, zero, suc, ◌+◌, ◌*◌, ◌/◌, ◌%◌, ◌≡◌, refl, ◌∙◌, inl, inr, List, [], ◌∷◌, ◌++◌, Option, none,
  some, arith, Option-cases,
}
use pi_industrial_robottools.Base.Bits.{bit_or_bytes}
use pi_industrial_robottools.Loggers.Water.{Line, swapped, lines_for, count_of, log_water}

-- The sum of the counts of a log, and of the transfers.
abbrev pub total : List Line → ℕ
total [] = 0
total (l ∷ ls) = l.count + total ls

abbrev pub received : Option ℕ → ℕ
received none = 0
received (some count) = count

abbrev pub total_received : List (Option ℕ × ℕ) → ℕ
total_received [] = 0
total_received ((transfer, now) ∷ rest) = received (count_of transfer) + total_received rest

-- The newest count of a log, and of the transfers.
abbrev pub newest : List Line → ℕ → ℕ
newest [] count = count
newest (l ∷ ls) count = newest ls l.count

abbrev pub replaced : Option ℕ → ℕ → ℕ
replaced none count = count
replaced (some new) count = new

abbrev pub newest_received : List (Option ℕ × ℕ) → ℕ → ℕ
newest_received [] count = count
newest_received ((transfer, now) ∷ rest) count =
    newest_received rest (replaced (count_of transfer) count)

-- A log with what stands in front of it.
total-lines_for :
    (now count last : ℕ) (ls : List Line)
    → total (lines_for now count last ++ ls) ≡ count + total ls
total-lines_for now zero zero ls = omega arith
total-lines_for now zero (suc last) ls = refl
total-lines_for now (suc n) last ls = refl

newest-lines_for :
    (now count last : ℕ) (ls : List Line)
    → newest (lines_for now count last ++ ls) last ≡ newest ls count
newest-lines_for now zero zero ls = refl
newest-lines_for now zero (suc last) ls = refl
newest-lines_for now (suc n) last ls = refl

-- The counts in the water log sum up to the counts of the transfers that came through, and the
-- newest count in it is that of the newest such transfer, so that it is zero when the flow has
-- stopped; both starting from the last count before.
pub log_water_accounts :
    (ts : List (Option ℕ × ℕ)) (last_count : ℕ)
    → (total (log_water ts last_count) ≡ total_received ts)
      × (newest (log_water ts last_count) last_count ≡ newest_received ts last_count)
unfolding log_water
log_water_accounts [] last_count = (refl, refl)
log_water_accounts ((transfer, now) ∷ rest) last_count = elim (Option-cases (count_of transfer)) [
  | inl lost ↦
      let rest_of = log_water_accounts rest last_count in
      rw (lost, log_water) (omega (arith, rest_of.0), rest_of.1)
  | inr (count, got) ↦
      let rest_of = log_water_accounts rest count in
      rw (got, log_water)
        (
          omega (arith, rest_of.0, total-lines_for now count last_count (log_water rest count)),
          newest-lines_for now count last_count (log_water rest count) ∙ rest_of.1,
        )
]

-- The count of a transfer is the number of its two low bytes, the first one high.
pub swapped_eq : (rx : ℕ) → swapped rx ≡ rx % 256 * 256 + rx / 256 % 256
swapped_eq rx = omega (arith, bit_or_bytes (rx % 256) (rx / 256 % 256) (omega arith))
