-- ===== src/Controller/Board.antt =====
-- What the sketch does to the board. The Arduino core (`pinMode`, `digitalWrite`, `analogWrite`)
-- is not part of the repository: an operation returns the calls that it makes of it, in order, and
-- `Board` keeps what was last written to each pin.
use pi_industrial_robottools.Base.{ℕ, ◌≡◌, refl, List, [], ◌∷◌, ◌++◌, ◌==◌, if◌then◌else◌}
use pi_industrial_robottools.Base.Int.{ℤ}

pub data Call : Type 0 where
  pin_mode : ℕ → ℕ → Call
  digital_write : ℕ → ℕ → Call
  analog_write : ℕ → ℤ → Call

abbrev pub input_pullup : ℕ
input_pullup = 2

abbrev pub output : ℕ
output = 1

abbrev pub low : ℕ
low = 0

abbrev pub high : ℕ
high = 1

pub record Board : Type 0 where
  pub digital : ℕ → ℕ
  pub analog : ℕ → ℤ

abbrev pub write {ℓ} : {A : Type ℓ} → (ℕ → A) → ℕ → A → ℕ → A
write f pin v p = if p == pin then v else f p

abbrev pub perform : Board → Call → Board
perform b (pin_mode pin mode) = b
perform b (digital_write pin v) = record b { digital = write b.digital pin v }
perform b (analog_write pin v) = record b { analog = write b.analog pin v }

abbrev pub perform_all : Board → List Call → Board
perform_all b [] = b
perform_all b (c ∷ cs) = perform_all (perform b c) cs

-- `P` holds of the board before the calls, between any two of them, and after the last.
abbrev pub Throughout {ℓ} : (Board → Type ℓ) → Board → List Call → Type ℓ
Throughout P b [] = P b
Throughout P b (c ∷ cs) = P b × Throughout P (perform b c) cs

pub perform_all-append :
    (b : Board) (cs ds : List Call) → perform_all b (cs ++ ds) ≡ perform_all (perform_all b cs) ds
perform_all-append b [] ds = refl
perform_all-append b (c ∷ cs) ds = perform_all-append (perform b c) cs ds
