-- ===== src/Papilio/Ftdi/Emits/Steps.antt =====
-- What the steps of `txrx_block` of papilio-prog/ioftdi.cpp clock out.
use pi_industrial_robottools.Base.{
  ℕ, zero, suc, ◌+◌, ◌-◌, ◌*◌, ◌/◌, ◌%◌, ◌≤◌, ◌<◌, ◌≡◌, refl, sym, inl, inr, arith, Bool, true,
  false, List, [], ◌∷◌, ◌++◌, length, Option, none, some, get_or, leb, ◌==◌, if◌then◌else◌,
  Bool-cases, bit_or,
}
use pi_industrial_robottools.Papilio.Ftdi.{Usb, Ftdi, Outcome, tx_buf, tms_command}
use pi_industrial_robottools.Papilio.Ftdi.Block.{
  slice, reading, Block, last_bit, read_block, whole_bytes, read_early, exit_bit, read_end,
  join_last,
}
use pi_industrial_robottools.Papilio.Ftdi.Engine.{idle, Pulse, run, bit, state_bits, data_pulses}
use pi_industrial_robottools.Papilio.Ftdi.Emits.{
  Accepts, Emits, Emits-then, Emits-weaken, mpsse_add_cmd-Emits, readusb-Emits, append-nil,
  done-Emits,
}
use pi_industrial_robottools.Papilio.Ftdi.Emits.Data.{moves, Sends, add_bytes-Sends}

-- The last clock, with TMS high and the bit `k` of the data.
abbrev pub exit_pulse : Option (List ℕ) → ℕ → Pulse
exit_pulse none k = record { tms = true; tdi = some false }
exit_pulse (some bs) k = record { tms = true; tdi = some (bit (get_or bs (k / 8) 0) (k % 8)) }

abbrev pub tail : Option (List ℕ) → Bool → ℕ → List Pulse
tail tdi false k = []
tail tdi true k = exit_pulse tdi k ∷ []

exit_run :
    (tdo b : Bool)
    → run idle (bit_or (reading tdo) tms_command ∷ 0 ∷ (if b then 0x81 else 1) ∷ [])
      ≡ (idle, record { tms = true; tdi = some b } ∷ [])
unfolding state_bits
exit_run true true = refl
exit_run true false = refl
exit_run false true = refl
exit_run false false = refl

module _ {S : Type 0} (usb : Usb S) (sent : S → List ℕ) (law : Accepts usb sent) where
  -- A call that takes a block to one whose position `P` holds of.
  abbrev pub Moves : (ℕ → Type 0) → Ftdi S → Outcome (Block S) → List Pulse → Type 0
  Moves P c o ps = Emits usb sent (λ b. b.cable) (λ b. P b.at) c o idle ps idle

  pub read_block-Moves :
      (tdo : Bool) (n : ℕ) (b : Block S)
      → length b.cable.usbuf ≤ tx_buf
      → Moves (λ i. i ≡ b.at) b.cable (read_block usb tdo n b) []
  unfolding read_block
  read_block-Moves false n b room =
      done-Emits usb sent (λ b. b.cable) (λ x. x.at ≡ b.at) b idle refl room
  read_block-Moves true n b room =
      Emits-then usb sent (λ r. r.0) (λ r. Unit) (λ b. b.cable) (λ x. x.at ≡ b.at) b.cable _ _ idle
        idle idle [] [] (readusb-Emits usb sent law n b.cable)
        (λ r u room'.
          done-Emits usb sent (λ b. b.cable) (λ x. x.at ≡ b.at)
            (record { at = b.at; got = b.got ++ slice n 0 r.1; cable = r.0 }) idle refl room')

  pub read_end-Moves :
      (tdo last : Bool) (rembits n : ℕ) (b : Block S)
      → length b.cable.usbuf ≤ tx_buf
      → Moves (λ i. Unit) b.cable (read_end usb tdo last rembits n b) []
  unfolding read_end
  read_end-Moves false last rembits n b room =
      done-Emits usb sent (λ b. b.cable) (λ x. Unit) b idle tt room
  read_end-Moves true false rembits n b room =
      Emits-weaken usb sent (λ b. b.cable) (λ x. x.at ≡ b.at) (λ x. Unit) b.cable _ idle idle []
        (λ x e. tt) (read_block-Moves true n b room)
  read_end-Moves true true rembits n b room =
      Emits-then usb sent (λ r. r.0) (λ r. Unit) (λ b. b.cable) (λ x. Unit) b.cable _ _ idle idle
        idle [] [] (readusb-Emits usb sent law n b.cable)
        (λ r u room'.
          done-Emits usb sent (λ b. b.cable) (λ x. Unit)
            (record { at = b.at; got = b.got ++ join_last rembits n (slice n 0 r.1); cable = r.0 })
            idle tt room')

  pub whole_bytes-Moves :
      (tdi : Option (List ℕ)) (tdo : Bool) (n : ℕ) (b : Block S)
      → moves tdi tdo ≡ true
      → n ≤ tx_buf
      → length b.cable.usbuf ≤ tx_buf
      → Moves
          (λ i. i ≡ b.at + n)
          b.cable
          (whole_bytes usb tdi tdo n b)
          (data_pulses tdi (8 * b.at) (8 * n))
  unfolding whole_bytes data_pulses
  whole_bytes-Moves tdi tdo zero b used small room =
      done-Emits usb sent (λ b. b.cable) (λ x. x.at ≡ b.at + 0) b idle (omega arith) room
  whole_bytes-Moves tdi tdo (suc m) b used small room =
      let z : (suc m == 0) ≡ false = ground arith in
      let ps = data_pulses tdi (8 * b.at) (8 * suc m) in
      rw (z, sym (append-nil ps))
        (Emits-then usb sent (λ c. c) (λ c. Unit) (λ b. b.cable) (λ x. x.at ≡ b.at + suc m) b.cable
          _ _ idle idle idle ps []
          (add_bytes-Sends usb sent law tdi tdo m b.at b.cable used (omega (arith, small)))
          (λ c u room'.
            done-Emits usb sent (λ b. b.cable) (λ x. x.at ≡ b.at + suc m)
              (record { at = b.at + suc m; got = b.got; cable = c }) idle refl room'))

  pub exit_bit-Sends :
      (tdi : Option (List ℕ)) (tdo last : Bool) (k i : ℕ) (c : Ftdi S)
      → k < 8
      → length c.usbuf ≤ tx_buf
      → Sends usb sent law c (exit_bit usb tdi tdo last k i c) (tail tdi last (8 * i + k))
  unfolding exit_bit state_bits
  exit_bit-Sends tdi tdo false k i c small room =
      done-Emits usb sent (λ c. c) (λ c. Unit) c idle tt room
  exit_bit-Sends none false true k i c small room =
      mpsse_add_cmd-Emits usb sent law _ c idle idle _ (omega arith) refl
  exit_bit-Sends none true true k i c small room =
      mpsse_add_cmd-Emits usb sent law _ c idle idle _ (omega arith) refl
  exit_bit-Sends (some bs) tdo true k i c small room =
      let q : (8 * i + k) / 8 ≡ i = omega (arith, small) in
      let r : (8 * i + k) % 8 ≡ k = omega (arith, small) in
      let sends : run idle (bit_or (reading tdo) tms_command ∷ 0 ∷ last_bit (some bs) i k ∷ [])
          ≡ (idle, exit_pulse (some bs) (8 * i + k) ∷ []) =
        rw (q, r) (exit_run tdo (bit (get_or bs i 0) k)) in
      mpsse_add_cmd-Emits usb sent law _ c idle idle _ (omega arith) sends

  pub read_early-Moves :
      (tdo : Bool) (n : ℕ) (b : Block S)
      → length b.cable.usbuf ≤ tx_buf
      → Emits usb sent
          (λ e. e.1.cable)
          (λ e. e.1.at ≡ b.at)
          b.cable
          (read_early usb tdo n b)
          idle
          []
          idle
  unfolding read_early
  read_early-Moves tdo n b room = elim (Bool-cases (leb (tx_buf - 4) n)) [
    | inl full ↦ rw full (
        Emits-then usb sent (λ b. b.cable) (λ x. x.at ≡ b.at) (λ e. e.1.cable) (λ e. e.1.at ≡ b.at)
          b.cable _ _ idle idle idle [] [] (read_block-Moves tdo n b room)
          (λ b' e room'.
            done-Emits usb sent (λ e. e.1.cable) (λ e. e.1.at ≡ b.at) (0, b') idle e room'))
    | inr space ↦
        rw space (done-Emits usb sent (λ e. e.1.cable) (λ e. e.1.at ≡ b.at) (n, b) idle refl room)
  ]
