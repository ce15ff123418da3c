-- ===== src/Papilio/Ftdi/Engine.antt =====
-- The engine of an FTDI chip for serial commands (MPSSE), by its documentation: what it clocks out for
-- the bytes that it is sent. It is the specification for papilio-prog/ioftdi.cpp.
use pi_industrial_robottools.Base.{
  ℕ, zero, suc, ◌+◌, ◌*◌, ◌/◌, ◌%◌, ◌^◌, ◌≤◌, ◌≡◌, refl, ap, ◌∙◌, sym, arith, Bool, false, List, [],
  ◌∷◌, ◌++◌, Option, none, some, get_or, leb, ◌==◌, if◌then◌else◌,
}
use pi_industrial_robottools.Papilio.Ftdi.Block.{slice}

-- A clock of TCK with TMS and TDI; `none` is a clock with no data for TDI.
pub record Pulse : Type 0 where
  pub tms : Bool
  pub tdi : Option Bool

-- What the engine waits for: a command, bytes to skip, the length of a command in one byte or two, or
-- its data, which are one byte more than the number says.
pub data Engine : Type 0 where
  idle : Engine
  skip : ℕ → Engine
  low : ℕ → Engine
  high : ℕ → ℕ → Engine
  payload : ℕ → Engine
  count : ℕ → Engine
  few : ℕ → Engine
  tms_bits : ℕ → Engine

abbrev pub bit : ℕ → ℕ → Bool
bit b i = b / 2 ^ i % 2 == 1

-- A clock with no data, and one with the bit `k` of a buffer.
abbrev pub no_data : Pulse
no_data = record { tms = false; tdi = none }

abbrev pub data_at : List ℕ → ℕ → Pulse
data_at bs k = record { tms = false; tdi = some (bit (get_or bs (k / 8) 0) (k % 8)) }

-- `n` clocks with no data.
unfoldable pub blank : ℕ → List Pulse
blank zero = []
blank (suc n) = no_data ∷ blank n

-- `n` clocks with the bits of a byte from the bit `i` on, the lowest first: on TDI, or on TMS with the
-- highest bit on TDI.
unfoldable pub data_bits : ℕ → ℕ → ℕ → List Pulse
data_bits zero i b = []
data_bits (suc n) i b = record { tms = false; tdi = some (bit b i) } ∷ data_bits n (i + 1) b

unfoldable pub state_bits : ℕ → ℕ → ℕ → List Pulse
state_bits zero i b = []
state_bits (suc n) i b = record { tms = bit b i; tdi = some (bit b 7) } ∷ state_bits n (i + 1) b

-- What a command waits for.
abbrev pub start : ℕ → Engine
start b =
    if leb 0x80 b
    then (if b == 0x87 then idle else skip 1)
    else (if bit b 6 then count b else (if bit b 1 then count b else low b))

-- The clocks of a command without data, which reads.
abbrev pub reads : ℕ → ℕ → Engine × List Pulse
reads op n = (idle, if bit op 5 then blank n else [])

abbrev pub step : Engine → ℕ → Engine × List Pulse
step idle b = (start b, [])
step (skip zero) b = (idle, [])
step (skip (suc n)) b = (skip n, [])
step (low op) b = (high op b, [])
step (high op l) b =
    if bit op 4 then (payload (b * 256 + l), []) else reads op (8 * (b * 256 + l + 1))
step (payload zero) b = (idle, data_bits 8 0 b)
step (payload (suc n)) b = (payload n, data_bits 8 0 b)
step (count op) b =
    if bit op 6 then (tms_bits b, []) else (if bit op 4 then (few b, []) else reads op (b + 1))
step (few n) b = (idle, data_bits (n + 1) 0 b)
step (tms_bits n) b = (idle, state_bits (n + 1) 0 b)

abbrev pub run : Engine → List ℕ → Engine × List Pulse
run e [] = (e, [])
run e (b ∷ bs) = let r = step e b in let q = run r.0 bs in (q.0, r.1 ++ q.1)

pub ++_assoc : {A : Type 0} (xs ys zs : List A) → (xs ++ ys) ++ zs ≡ xs ++ (ys ++ zs)
++_assoc [] ys zs = refl
++_assoc (x ∷ xs) ys zs = ap (λ t. x ∷ t) (++_assoc xs ys zs)

pub run-append :
    (e : Engine) (xs ys : List ℕ)
    → run e (xs ++ ys) ≡ ((run (run e xs).0 ys).0, (run e xs).1 ++ (run (run e xs).0 ys).1)
run-append e [] ys = refl
run-append e (x ∷ xs) ys =
    let r = step e x in
    rw (run-append r.0 xs ys)
      (ap (λ t. ((run (run r.0 xs).0 ys).0, t)) (sym (++_assoc r.1 (run r.0 xs).1 _)))

-- The clocks for the bits `k` to `k + n - 1` of a buffer.
unfoldable pub data_pulses : Option (List ℕ) → ℕ → ℕ → List Pulse
data_pulses tdi k zero = []
data_pulses none k (suc n) = no_data ∷ data_pulses none (suc k) n
data_pulses (some bs) k (suc n) = data_at bs k ∷ data_pulses (some bs) (suc k) n

pub blank_eq : (n k : ℕ) → blank n ≡ data_pulses none k n
unfolding blank data_pulses
blank_eq zero k = refl
blank_eq (suc n) k = ap (λ t. no_data ∷ t) (blank_eq n (suc k))

pub data_pulses_add :
    (tdi : Option (List ℕ)) (k m n : ℕ)
    → data_pulses tdi k (m + n) ≡ data_pulses tdi k m ++ data_pulses tdi (k + m) n
unfolding data_pulses
data_pulses_add tdi k zero n =
    let e : k + 0 ≡ k = omega arith in let e' : 0 + n ≡ n = omega arith in rw (e, e') refl
data_pulses_add none k (suc m) n =
    let e : suc k + m ≡ k + suc m = omega arith in
    let e' : suc m + n ≡ suc (m + n) = omega arith in
    let next = rw e at (data_pulses_add none (suc k) m n) in rw e' (ap (λ t. no_data ∷ t) next)
data_pulses_add (some bs) k (suc m) n =
    let e : suc k + m ≡ k + suc m = omega arith in
    let e' : suc m + n ≡ suc (m + n) = omega arith in
    let next = rw e at (data_pulses_add (some bs) (suc k) m n) in
    rw e' (ap (λ t. data_at bs k ∷ t) next)

-- The bits of one byte of the buffer.
pub data_bits_eq :
    (bs : List ℕ) (n i j : ℕ)
    → i + n ≤ 8
    → data_bits n i (get_or bs j 0) ≡ data_pulses (some bs) (8 * j + i) n
unfolding data_pulses data_bits
data_bits_eq bs zero i j h = refl
data_bits_eq bs (suc n) i j h =
    let q : (8 * j + i) / 8 ≡ j = omega (arith, h) in
    let r : (8 * j + i) % 8 ≡ i = omega (arith, h) in
    let e : suc (8 * j + i) ≡ 8 * j + (i + 1) = omega arith in
    rw (q, r, e, data_bits_eq bs n (i + 1) j (omega (arith, h)))

-- One byte, and the others.
byte_first :
    (bs : List ℕ) (n i : ℕ)
    → data_bits 8 0 (get_or bs i 0) ++ data_pulses (some bs) (8 * (i + 1)) n
      ≡ data_pulses (some bs) (8 * i) (8 + n)
byte_first bs n i =
    let e : 8 * i + 0 ≡ 8 * i = omega arith in
    let e' : 8 * (i + 1) ≡ 8 * i + 8 = omega arith in
    rw (data_bits_eq bs 8 0 i (omega arith), e, e') (sym (data_pulses_add (some bs) (8 * i) 8 n))

-- The data of a command for whole bytes.
pub run-payload :
    (bs : List ℕ) (n i : ℕ)
    → run (payload n) (slice (suc n) i bs) ≡ (idle, data_pulses (some bs) (8 * i) (8 * suc n))
unfolding data_pulses
run-payload bs zero i = ap (λ t. (idle, t)) (byte_first bs 0 i)
run-payload bs (suc n) i =
    let e : 8 * suc (suc n) ≡ 8 + 8 * suc n = omega arith in
    let first = data_bits 8 0 (get_or bs i 0) in
    rw e (
      ap (λ q. (q.0, first ++ q.1)) (run-payload bs n (i + 1))
      ∙ ap (λ t. (idle, t)) (byte_first bs (8 * suc n) i))
