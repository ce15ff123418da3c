-- ===== src/Papilio/Ftdi/Emits/Whole.antt =====
-- What `txrx_block` of papilio-prog/ioftdi.cpp clocks out.
use pi_industrial_robottools.Base.{
  ℕ, zero, suc, ◌+◌, ◌-◌, ◌*◌, ◌/◌, ◌%◌, ◌^◌, ◌≤◌, ◌<◌, ◌≡◌, refl, ap, ◌∙◌, sym, inl, inr, arith,
  Bool, true, false, List, [], ◌∷◌, ◌++◌, length, Option, ltb, if◌then◌else◌, Bool-cases,
}
use pi_industrial_robottools.Papilio.Ftdi.{Usb, Ftdi, Outcome, ok, tx_buf, ◌>>=◌}
use pi_industrial_robottools.Papilio.Ftdi.Block.{
  Block, full_chunks, few_bits, exit_bit, finish_block, txrx_block,
}
use pi_industrial_robottools.Papilio.Ftdi.Engine.{
  idle, ++_assoc, Pulse, data_pulses, data_pulses_add,
}
use pi_industrial_robottools.Papilio.Ftdi.Emits.{
  Accepts, Emits, Emits-then, Emits-weaken, append-nil, done-Emits,
}
use pi_industrial_robottools.Papilio.Ftdi.Emits.Data.{moves, add_bytes-Sends, few_bits-Sends}
use pi_industrial_robottools.Papilio.Ftdi.Emits.Steps.{
  exit_pulse, tail, Moves, read_block-Moves, read_end-Moves, whole_bytes-Moves, exit_bit-Sends,
  read_early-Moves,
}

-- All clocks for `length` bits: the last one with TMS high if a state is to be left.
abbrev pub block_pulses : Option (List ℕ) → ℕ → Bool → List Pulse
block_pulses tdi length false = data_pulses tdi 0 length
block_pulses tdi length true = data_pulses tdi 0 (length - 1) ++ exit_pulse tdi (length - 1) ∷ []

-- The bits that the loop over chunks leaves.
unfoldable left : ℕ → ℕ → ℕ
left zero rem = rem
left (suc fuel) rem = if ltb (tx_buf - 3) (rem / 8) then left fuel (rem - (tx_buf - 3) * 8) else rem

left_le : (fuel rem : ℕ) → left fuel rem ≤ rem
unfolding left
left_le zero rem = omega arith
left_le (suc fuel) rem = elim (Bool-cases (ltb (tx_buf - 3) (rem / 8))) [
  | inl more ↦ rw more (omega (arith, left_le fuel (rem - (tx_buf - 3) * 8)))
  | inr done ↦ rw done (omega arith)
]

-- The fuel is enough.
left_small : (fuel rem : ℕ) → rem / 8 / (tx_buf - 3) < fuel → left fuel rem / 8 ≤ tx_buf - 3
unfolding left
left_small zero rem lt = absurd (omega (arith, lt))
left_small (suc fuel) rem lt = elim (Bool-cases (ltb (tx_buf - 3) (rem / 8))) [
  | inl more ↦
      let big : tx_buf - 3 < rem / 8 = ground arith in
      rw more (left_small fuel (rem - (tx_buf - 3) * 8) (omega (arith, lt, big)))
  | inr done ↦ let small : rem / 8 ≤ tx_buf - 3 = ground arith in rw done small
]

module _ {S : Type 0} (usb : Usb S) (sent : S → List ℕ) (law : Accepts usb sent) where
  full_chunks-Moves :
      (fuel : ℕ) (tdi : Option (List ℕ)) (tdo : Bool) (rem : ℕ) (b : Block S)
      → moves tdi tdo ≡ true
      → length b.cable.usbuf ≤ tx_buf
      → Emits usb sent
          (λ r. r.1.cable)
          (λ r. (r.0 ≡ left fuel rem) × (8 * r.1.at + left fuel rem ≡ 8 * b.at + rem))
          b.cable
          (full_chunks usb fuel tdi tdo rem b)
          idle
          (data_pulses tdi (8 * b.at) (rem - left fuel rem))
          idle
  unfolding full_chunks left data_pulses
  full_chunks-Moves zero tdi tdo rem b used room =
      let z : rem - rem ≡ 0 = omega arith in
      rw z (
        done-Emits usb sent (λ r. r.1.cable)
          (λ r. (r.0 ≡ rem) × (8 * r.1.at + rem ≡ 8 * b.at + rem)) (rem, b) idle (refl, refl) room)
  full_chunks-Moves (suc fuel) tdi tdo rem b used room =
      elim (Bool-cases (ltb (tx_buf - 3) (rem / 8))) [
        | inl more ↦
            let big : tx_buf - 3 < rem / 8 = ground arith in
            let rest = rem - (tx_buf - 3) * 8 in
            let l = left fuel rest in
            let total : rem - l ≡ 8 * 4093 + (rest - l) = omega (arith, left_le fuel rest, big) in
            let pulses : data_pulses tdi (8 * b.at) (rem - l)
                ≡ data_pulses tdi (8 * b.at) (8 * 4093)
                  ++ data_pulses tdi (8 * b.at + 8 * 4093) (rest - l) =
              ap (λ t. data_pulses tdi (8 * b.at) t) total
              ∙ data_pulses_add tdi (8 * b.at) (8 * 4093) (rest - l) in
            rw (more, pulses)
              (Emits-then usb sent (λ c. c) (λ c. Unit) (λ r. r.1.cable)
                (λ r. (r.0 ≡ l) × (8 * r.1.at + l ≡ 8 * b.at + rem)) b.cable _ _ idle idle idle
                (data_pulses tdi (8 * b.at) (8 * 4093))
                (data_pulses tdi (8 * b.at + 8 * 4093) (rest - l))
                (add_bytes-Sends usb sent law tdi tdo 4092 b.at b.cable used (omega arith))
                (λ c u room'.
                  (let b' : Block S = record { at = b.at + (tx_buf - 3); got = b.got; cable = c } in
                    Emits-then usb sent (λ x. x.cable) (λ x. x.at ≡ b'.at) (λ r. r.1.cable)
                      (λ r. (r.0 ≡ l) × (8 * r.1.at + l ≡ 8 * b.at + rem)) c _ _ idle idle idle []
                      (data_pulses tdi (8 * b.at + 8 * 4093) (rest - l))
                      (read_block-Moves usb sent law tdo (tx_buf - 3) b' room')
                      (λ x x_at fits.
                        (let same : 8 * x.at ≡ 8 * b.at + 8 * 4093 = omega (arith, x_at) in
                          rw (sym same) (
                            Emits-weaken usb sent (λ r. r.1.cable)
                              (λ r. (r.0 ≡ l) × (8 * r.1.at + l ≡ 8 * x.at + rest))
                              (λ r. (r.0 ≡ l) × (8 * r.1.at + l ≡ 8 * b.at + rem)) x.cable _ idle
                              idle _ (λ r h. (h.0, (let e = h.1 in omega (arith, e, same, big))))
                              (full_chunks-Moves fuel tdi tdo rest x used fits)))))))
        | inr enough ↦
            let z : rem - rem ≡ 0 = omega arith in
            rw (enough, z)
              (done-Emits usb sent (λ r. r.1.cable)
                (λ r. (r.0 ≡ rem) × (8 * r.1.at + rem ≡ 8 * b.at + rem)) (rem, b) idle (refl, refl)
                room)
      ]

  finish_block-Moves :
      (tdi : Option (List ℕ)) (tdo last : Bool) (rem : ℕ) (b : Block S)
      → moves tdi tdo ≡ true
      → rem / 8 ≤ tx_buf - 3
      → length b.cable.usbuf ≤ tx_buf
      → Moves usb sent law
          (λ i. Unit)
          b.cable
          (finish_block usb tdi tdo last rem b)
          (data_pulses tdi (8 * b.at) rem ++ tail tdi last (8 * b.at + rem))
  unfolding finish_block
  finish_block-Moves tdi tdo last rem b used small room =
      let k = rem % 8 in
      let n = rem / 8 in
      let split : rem ≡ 8 * n + k = omega arith in
      let whole = data_pulses tdi (8 * b.at) (8 * n) in
      let bits = data_pulses tdi (8 * b.at + 8 * n) k in
      let end = tail tdi last (8 * b.at + rem) in
      let pulses : data_pulses tdi (8 * b.at) rem ++ end ≡ whole ++ ([] ++ (bits ++ (end ++ []))) =
        ap (λ t. t ++ end)
          (ap (λ t. data_pulses tdi (8 * b.at) t) split ∙ data_pulses_add tdi (8 * b.at) (8 * n) k)
        ∙ ++_assoc whole bits end
        ∙ rw (append-nil end) refl in
      rw pulses (
        Emits-then usb sent (λ x. x.cable) (λ x. x.at ≡ b.at + n) (λ x. x.cable) (λ x. Unit) b.cable
          _ _ idle idle idle whole _
          (whole_bytes-Moves usb sent law tdi tdo n b used (omega (arith, small)) room)
          (λ b1 at1 room1.
            (Emits-then usb sent (λ e. e.1.cable) (λ e. e.1.at ≡ b1.at) (λ x. x.cable) (λ x. Unit)
              b1.cable _ _ idle idle idle [] _ (read_early-Moves usb sent law tdo n b1 room1)
              (λ e at2 room2.
                (let i : 8 * e.1.at ≡ 8 * b.at + 8 * n = omega (arith, at1, at2) in
                  let j : 8 * e.1.at + k ≡ 8 * b.at + rem = omega (arith, i, split) in
                  Emits-then usb sent (λ c. c) (λ c. Unit) (λ x. x.cable) (λ x. Unit) e.1.cable
                    (few_bits usb tdi tdo k e.1.at e.1.cable) _ idle idle idle bits _
                    (rw (sym i) (
                      few_bits-Sends usb sent law tdi tdo k e.1.at e.1.cable used (omega arith)
                        room2))
                    (λ c1 u1 room3.
                      Emits-then usb sent (λ c. c) (λ c. Unit) (λ x. x.cable) (λ x. Unit) c1
                        (exit_bit usb tdi tdo last k e.1.at c1) _ idle idle idle end []
                        (rw (sym j) (
                          exit_bit-Sends usb sent law tdi tdo last k e.1.at c1 (omega arith) room3))
                        (λ c2 u2 room4.
                          read_end-Moves usb sent law tdo last k _
                            (record { at = e.1.at; got = e.1.got; cable = c2 }) room4)))))))

  -- All of `txrx_block` behind the count of the bits.
  abbrev block : Option (List ℕ) → Bool → Bool → ℕ → Ftdi S → Outcome (Ftdi S × List ℕ)
  block tdi tdo last rem c =
      full_chunks usb (rem / 8 / (tx_buf - 3) + 1) tdi tdo rem
        (record { at = 0; got = []; cable = c })
      >>= λ r. finish_block usb tdi tdo last r.0 r.1 >>= λ b. ok (b.cable, b.got)

  block-Emits :
      (tdi : Option (List ℕ)) (tdo last : Bool) (rem : ℕ) (c : Ftdi S)
      → moves tdi tdo ≡ true
      → length c.usbuf ≤ tx_buf
      → Emits usb sent
          (λ r. r.0)
          (λ r. Unit)
          c
          (block tdi tdo last rem c)
          idle
          (data_pulses tdi 0 rem ++ tail tdi last rem)
          idle
  block-Emits tdi tdo last rem c used room =
      let fuel = rem / 8 / (tx_buf - 3) + 1 in
      let b0 : Block S = record { at = 0; got = []; cable = c } in
      let l = left fuel rem in
      let l_small = left_small fuel rem (omega arith) in
      let l_le = left_le fuel rem in
      let split : rem ≡ rem - l + l = omega (arith, l_le) in
      let first = data_pulses tdi 0 (rem - l) in
      let rest = data_pulses tdi (rem - l) l in
      let end = tail tdi last rem in
      let pulses : data_pulses tdi 0 rem ++ end ≡ first ++ ((rest ++ end) ++ []) =
        ap (λ t. t ++ end) (ap (λ t. data_pulses tdi 0 t) split ∙ data_pulses_add tdi 0 (rem - l) l)
        ∙ ++_assoc first (data_pulses tdi (0 + (rem - l)) l) end
        ∙ (let z : 0 + (rem - l) ≡ rem - l = omega arith in
            rw (z, append-nil (rest ++ end)) refl) in
      rw pulses (
        Emits-then usb sent (λ r. r.1.cable) (λ r. (r.0 ≡ l) × (8 * r.1.at + l ≡ 8 * 0 + rem))
          (λ r. r.0) (λ r. Unit) c _ _ idle idle idle first _
          (full_chunks-Moves fuel tdi tdo rem b0 used room)
          (λ r h room1.
            (let (h0, h1) = h in
              let i : 8 * r.1.at ≡ rem - l = omega (arith, h1) in
              let j : 8 * r.1.at + r.0 ≡ rem = omega (arith, h0, h1) in
              let i' : data_pulses tdi (8 * r.1.at) r.0 ++ tail tdi last (8 * r.1.at + r.0)
                  ≡ rest ++ end =
                rw j (ap (λ t. t ++ end) (rw (i, h0) refl)) in
              Emits-then usb sent (λ x. x.cable) (λ x. Unit) (λ r. r.0) (λ r. Unit) r.1.cable
                (finish_block usb tdi tdo last r.0 r.1) _ idle idle idle (rest ++ end) []
                (rw i' at
                  (finish_block-Moves tdi tdo last r.0 r.1 used (omega (arith, h0, l_small)) room1))
                (λ x u room2.
                  done-Emits usb sent (λ r. r.0) (λ r. Unit) (x.cable, x.got) idle tt room2))))

  -- With a USB library that takes all that it is given and whose reads may come short but do not
  -- fail, `txrx_block` of at least one and fewer than 2 ^ 32 bits returns and keeps `usbuf` in
  -- its bounds, and the commands that it adds make an idle engine clock just these bits, in
  -- order, with TMS low, but for the last bit of a shift that leaves its state, which has TMS
  -- high. The data are written, read or both, and `usbuf` holds no more than its size before.
  pub txrx_block-Emits :
      (tdi : Option (List ℕ)) (tdo last : Bool) (len : ℕ) (c : Ftdi S)
      → moves tdi tdo ≡ true
      → 0 < len
      → len < 2 ^ 32
      → length c.usbuf ≤ tx_buf
      → Emits usb sent
          (λ r. r.0)
          (λ r. Unit)
          c
          (txrx_block usb tdi tdo len last c)
          idle
          (block_pulses tdi len last)
          idle
  unfolding txrx_block
  txrx_block-Emits tdi tdo false len c used pos small room =
      rw (sym (append-nil (data_pulses tdi 0 len))) (block-Emits tdi tdo false len c used room)
  txrx_block-Emits tdi tdo true len c used pos small room =
      let e : (len + (2 ^ 32 - 1)) % 2 ^ 32 ≡ len - 1 = omega (arith, pos, small) in
      rw e (block-Emits tdi tdo true (len - 1) c used room)
