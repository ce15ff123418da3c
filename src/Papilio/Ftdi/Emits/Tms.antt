-- ===== src/Papilio/Ftdi/Emits/Tms.antt =====
-- What `tx_tms` of papilio-prog/ioftdi.cpp clocks out.
use native.Mathlib.Nat.{pow-suc, div-div-eq-div-mul}
use pi_industrial_robottools.Base.{
  ℕ, zero, suc, ◌+◌, ◌-◌, ◌*◌, ◌/◌, ◌%◌, ◌^◌, ◌≤◌, ◌<◌, ◌≡◌, refl, ap, ◌∙◌, sym, inl, inr, arith,
  true, false, List, [], ◌∷◌, ◌++◌, length, some, ltb, ◌==◌, if◌then◌else◌, Bool-cases,
}
use pi_industrial_robottools.Papilio.Ftdi.{
  Usb, Ftdi, tx_buf, bit_at, pack_tms, tms_command, mpsse_add_cmd, tx_tms_loop, tx_tms,
}
use pi_industrial_robottools.Papilio.Ftdi.Engine.{idle, Pulse, bit, state_bits}
use pi_industrial_robottools.Papilio.Ftdi.Emits.{
  Accepts, Emits, Emits-then, mpsse_add_cmd-Emits, append-nil, done-Emits,
}

-- `n` clocks with the bits of a buffer on TMS, from the bit `j` on, and TDI high.
unfoldable pub tms_pulses : List ℕ → ℕ → ℕ → List Pulse
tms_pulses pat j zero = []
tms_pulses pat j (suc n) =
    record { tms = bit_at pat j == 1; tdi = some true } ∷ tms_pulses pat (suc j) n

-- The number that `n` bits make, the bit `j` being the lowest.
value : List ℕ → ℕ → ℕ → ℕ
value pat zero j = 0
value pat (suc n) j = bit_at pat j + 2 * value pat n (suc j)

pack_tms_eq : (pat : List ℕ) (n i j : ℕ) → pack_tms n i j pat ≡ 2 ^ i * value pat n j
unfolding pack_tms value
pack_tms_eq pat zero i j = omega arith
pack_tms_eq pat (suc n) i j =
    let ih : pack_tms n (suc i) (suc j) pat ≡ 2 ^ i * 2 * value pat n (suc j) =
      rw (pow-suc 2 i) at (pack_tms_eq pat n (suc i) (suc j)) in
    rw ih (grind arith)

-- `h` behind `n` digits.
above : ℕ → ℕ → ℕ
above zero h = h
above (suc n) h = 2 * above n h

value_lt : (pat : List ℕ) (n j : ℕ) → value pat n j < above n 1
unfolding value above
value_lt pat zero j = omega arith
value_lt pat (suc n) j = omega (arith, value_lt pat n (suc j))

-- The bits of a byte, the highest bit of which is set.
state_bits_eq :
    (pat : List ℕ) (b n i j h : ℕ)
    → bit b 7 ≡ true
    → b / 2 ^ i ≡ value pat n j + above n h
    → state_bits n i b ≡ tms_pulses pat j n
unfolding state_bits tms_pulses value above
state_bits_eq pat b zero i j h top e = refl
state_bits_eq pat b (suc n) i j h top e =
    let low : b / 2 ^ i % 2 ≡ bit_at pat j = omega (arith, e) in
    let halves : b / 2 ^ suc i ≡ b / 2 ^ i / 2 =
      rw (pow-suc 2 i) (sym (div-div-eq-div-mul b (2 ^ i) 2)) in
    let next : b / 2 ^ suc i ≡ value pat n (suc j) + above n h = omega (arith, e, halves) in
    let ei : i + 1 ≡ suc i = omega arith in
    rw (low, top, ei, state_bits_eq pat b n (suc i) (suc j) h top next) refl

above_add : (m n h : ℕ) → above m (above n h) ≡ above (m + n) h
unfolding above
above_add zero n h = let e : 0 + n ≡ n = omega arith in rw e refl
above_add (suc m) n h =
    let e : suc m + n ≡ suc (m + n) = omega arith in rw e (ap (λ t. 2 * t) (above_add m n h))

above_mono : (n a b : ℕ) → a ≤ b → above n a ≤ above n b
unfolding above
above_mono zero a b h = h
above_mono (suc n) a b h = omega (arith, above_mono n a b h)

above_pos : (n : ℕ) → 1 ≤ above n 1
unfolding above
above_pos zero = omega arith
above_pos (suc n) = omega (arith, above_pos n)

-- The place of the highest bit, and the room for the others.
top_place : (n : ℕ) → n ≤ 7 → ((h : ℕ) × (above n h ≡ 128)) × (above n 1 ≤ 128)
unfolding above
top_place n le =
    let e : n + (7 - n) ≡ 7 = omega (arith, le) in
    let place : above n (above (7 - n) 1) ≡ 128 = above_add n (7 - n) 1 ∙ rw e refl in
    (
      (above (7 - n) 1, place),
      omega (arith, place, above_mono n 1 (above (7 - n) 1) (above_pos (7 - n))),
    )

-- A command of `tx_tms`.
command_bits :
    (pat : List ℕ) (n j : ℕ)
    → n ≤ 7
    → state_bits n 0 (0x80 + pack_tms n 0 j pat) ≡ tms_pulses pat j n
command_bits pat n j le =
    let ((h, place), room) = top_place n le in
    let packed : pack_tms n 0 j pat ≡ value pat n j =
      (let e = pack_tms_eq pat n 0 j in omega (arith, e)) in
    let lt = value_lt pat n j in
    let b = 0x80 + pack_tms n 0 j pat in
    let seven : b / 2 ^ 7 % 2 ≡ 1 = omega (arith, packed, lt, room) in
    let top : bit b 7 ≡ true = ground arith in
    state_bits_eq pat b n 0 j h top (omega (arith, packed, place))

tms_pulses_add :
    (pat : List ℕ) (m n j : ℕ)
    → tms_pulses pat j (m + n) ≡ tms_pulses pat j m ++ tms_pulses pat (j + m) n
unfolding tms_pulses
tms_pulses_add pat zero n j =
    let e : 0 + n ≡ n = omega arith in let e' : j + 0 ≡ j = omega arith in rw (e, e') refl
tms_pulses_add pat (suc m) n j =
    let e : suc m + n ≡ suc (m + n) = omega arith in
    let e' : suc j + m ≡ j + suc m = omega arith in
    let ih = rw e' at (tms_pulses_add pat m n (suc j)) in
    rw e (ap (λ t. record { tms = bit_at pat j == 1; tdi = some true } ∷ t) ih)

module _ {S : Type 0} (usb : Usb S) (sent : S → List ℕ) (law : Accepts usb sent) where
  command-Emits :
      (pat : List ℕ) (n j : ℕ) (c : Ftdi S)
      → n < 7
      → Emits usb sent
          (λ c. c)
          (λ c. Unit)
          c
          (mpsse_add_cmd usb (tms_command ∷ n ∷ (0x80 + pack_tms (suc n) 0 j pat) ∷ []) c)
          idle
          (tms_pulses pat j (suc n))
          idle
  command-Emits pat n j c lt =
      let e : n + 1 ≡ suc n = omega arith in
      let bits =
        append-nil (state_bits (suc n) 0 (0x80 + pack_tms (suc n) 0 j pat))
        ∙ command_bits pat (suc n) j (omega (arith, lt)) in
      mpsse_add_cmd-Emits usb sent law _ c idle idle _ (omega arith)
        (rw e (ap (λ t. (idle, t)) bits))

  -- All clocks of the loop.
  abbrev LoopEmits : ℕ → Type 0
  LoopEmits fuel =
      (pat : List ℕ) (j len : ℕ) (c : Ftdi S)
      → length c.usbuf ≤ tx_buf
      → len ≤ fuel
      → Emits usb sent (λ c. c) (λ c. Unit) c (tx_tms_loop usb fuel pat j len c) idle
          (tms_pulses pat j len) idle

  -- A round that sends `m + 1` bits.
  round-Emits :
      (fuel m l : ℕ) (pat : List ℕ) (j : ℕ) (c : Ftdi S)
      → LoopEmits fuel
      → (if ltb 7 (suc l) then 7 else suc l) ≡ suc m
      → m < 7
      → m ≤ l
      → suc l - 7 ≡ l - m
      → l ≤ fuel
      → Emits usb sent
          (λ c. c)
          (λ c. Unit)
          c
          (tx_tms_loop usb (suc fuel) pat j (suc l) c)
          idle
          (tms_pulses pat j (suc l))
          idle
  unfolding tx_tms_loop
  round-Emits fuel m l pat j c next n_eq lt le_l rest le =
      let more : (suc l == 0) ≡ false = ground arith in
      let pred : suc m - 1 ≡ m = omega arith in
      let total : suc l ≡ suc m + (l - m) = omega (arith, le_l) in
      let pulses : tms_pulses pat j (suc l)
          ≡ tms_pulses pat j (suc m) ++ tms_pulses pat (j + suc m) (l - m) =
        ap (λ t. tms_pulses pat j t) total ∙ tms_pulses_add pat (suc m) (l - m) j in
      rw (pulses, more, n_eq, pred, rest)
        (Emits-then usb sent (λ c. c) (λ c. Unit) (λ c. c) (λ c. Unit) c _ _ idle idle idle
          (tms_pulses pat j (suc m)) (tms_pulses pat (j + suc m) (l - m))
          (command-Emits pat m j c lt)
          (λ c' u room. next pat (j + suc m) (l - m) c' room (omega (arith, le))))

  tx_tms_loop-Emits : (fuel : ℕ) → LoopEmits fuel
  unfolding tx_tms_loop tms_pulses
  tx_tms_loop-Emits fuel pat j zero c room le = stop fuel
    where
      stop :
          (fuel : ℕ)
          → Emits usb sent (λ c. c) (λ c. Unit) c (tx_tms_loop usb fuel pat j 0 c) idle [] idle
      stop zero = done-Emits usb sent (λ c. c) (λ c. Unit) c idle tt room
      stop (suc fuel) = done-Emits usb sent (λ c. c) (λ c. Unit) c idle tt room
  tx_tms_loop-Emits zero pat j (suc l) c room le = absurd (omega (arith, le))
  tx_tms_loop-Emits (suc fuel) pat j (suc l) c room le = elim (Bool-cases (ltb 7 (suc l))) [
    | inl more ↦
        round-Emits fuel 6 l pat j c (tx_tms_loop-Emits fuel) (rw more refl) (omega arith)
          (omega (arith, seven more)) (omega arith) (omega (arith, le))
    | inr last ↦
        round-Emits fuel l l pat j c (tx_tms_loop-Emits fuel) (rw last refl)
          (omega (arith, few last)) (omega arith) (omega (arith, few last)) (omega (arith, le))
  ]
    where
      seven : ltb 7 (suc l) ≡ true → 7 < suc l
      seven h = ground arith

      few : ltb 7 (suc l) ≡ false → suc l ≤ 7
      few h = ground arith

  -- With a USB library that takes all that it is given, `tx_tms` returns and keeps `usbuf` in its
  -- bounds, and the commands that it adds make an idle engine clock the bits of the buffer out on
  -- TMS, as many as the length says, in order, with TDI high. `usbuf` holds no more than its size
  -- before.
  pub tx_tms-Emits :
      (pat : List ℕ) (len : ℕ) (c : Ftdi S)
      → length c.usbuf ≤ tx_buf
      → Emits usb sent
          (λ c. c)
          (λ c. Unit)
          c
          (tx_tms usb pat len c)
          idle
          (tms_pulses pat 0 len)
          idle
  unfolding tx_tms
  tx_tms-Emits pat len c room = tx_tms_loop-Emits len pat 0 len c room (omega arith)
