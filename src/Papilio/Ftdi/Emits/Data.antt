-- ===== src/Papilio/Ftdi/Emits/Data.antt =====
-- What the commands of `txrx_block` of papilio-prog/ioftdi.cpp clock out.
use pi_industrial_robottools.Base.{
  ℕ, zero, suc, ◌+◌, ◌-◌, ◌*◌, ◌/◌, ◌%◌, ◌≤◌, ◌<◌, ◌≡◌, refl, ap, ◌∙◌, sym, arith, Bool, true,
  false, List, [], ◌∷◌, length, Option, none, some, get_or, ◌==◌,
}
use pi_industrial_robottools.Papilio.Ftdi.{Usb, Ftdi, Outcome, tx_buf, ◌>>=◌, mpsse_add_cmd}
use pi_industrial_robottools.Papilio.Ftdi.Block.{slice, add_data, add_bytes, few_bits}
use pi_industrial_robottools.Papilio.Ftdi.Engine.{
  idle, payload, few, Pulse, run, blank, blank_eq, data_bits, data_bits_eq, data_pulses,
  run-payload,
}
use pi_industrial_robottools.Papilio.Ftdi.Emits.{
  Accepts, Emits, Emits-then, mpsse_add_cmd-Emits, append-nil, done-Emits,
}

-- Something is written or read, so the engine has a command for it.
abbrev pub moves : Option (List ℕ) → Bool → Bool
moves none tdo = tdo
moves (some bs) tdo = true

length-slice : (n i : ℕ) (bs : List ℕ) → length (slice n i bs) ≡ n
length-slice zero i bs = refl
length-slice (suc n) i bs = ap suc (length-slice n (i + 1) bs)

module _ {S : Type 0} (usb : Usb S) (sent : S → List ℕ) (law : Accepts usb sent) where
  -- A call that leaves the cable, and one that leaves a block.
  abbrev pub Sends : Ftdi S → Outcome (Ftdi S) → List Pulse → Type 0
  Sends c o ps = Emits usb sent (λ c. c) (λ c. Unit) c o idle ps idle

  header : ℕ → ℕ → List ℕ
  header op m = op ∷ (m % 256) ∷ (m / 256 % 256) ∷ []

  -- A command for whole bytes that writes.
  write_bytes-Sends :
      (op : ℕ) (bs : List ℕ) (m i : ℕ) (c : Ftdi S)
      → m < tx_buf
      → run idle (header op m) ≡ (payload (m / 256 % 256 * 256 + m % 256), [])
      → Sends c
          (mpsse_add_cmd usb (header op m) c >>= add_data usb (some bs) (suc m) i)
          (data_pulses (some bs) (8 * i) (8 * suc m))
  unfolding add_data header
  write_bytes-Sends op bs m i c small starts =
      let e : m / 256 % 256 * 256 + m % 256 ≡ m = omega (arith, small) in
      let starts' : run idle (header op m) ≡ (payload m, []) =
        starts ∙ ap (λ t. (payload t, [])) e in
      Emits-then usb sent (λ c. c) (λ c. Unit) (λ c. c) (λ c. Unit) c _ _ idle (payload m) idle [] _
        (mpsse_add_cmd-Emits usb sent law (header op m) c idle (payload m) [] (omega arith) starts')
        (λ c' u room.
          mpsse_add_cmd-Emits usb sent law (slice (suc m) i bs) c' (payload m) idle _
            (omega (arith, length-slice (suc m) i bs, small)) (run-payload bs m i))

  pub add_bytes-Sends :
      (tdi : Option (List ℕ)) (tdo : Bool) (m i : ℕ) (c : Ftdi S)
      → moves tdi tdo ≡ true
      → m < tx_buf
      → Sends c (add_bytes usb tdi tdo (suc m) i c) (data_pulses tdi (8 * i) (8 * suc m))
  unfolding add_bytes header add_data
  add_bytes-Sends (some bs) false m i c used small =
      let e : suc m - 1 ≡ m = omega arith in rw e (write_bytes-Sends 0x19 bs m i c small refl)
  add_bytes-Sends (some bs) true m i c used small =
      let e : suc m - 1 ≡ m = omega arith in rw e (write_bytes-Sends 0x3d bs m i c small refl)
  add_bytes-Sends none false m i c used small = cc
  add_bytes-Sends none true m i c used small =
      let e : suc m - 1 ≡ m = omega arith in
      let size : m / 256 % 256 * 256 + m % 256 + 1 ≡ suc m = omega (arith, small) in
      let ps = data_pulses none (8 * i) (8 * suc m) in
      let reads : run idle (header 0x2d m) ≡ (idle, ps) =
        rw size
          (ap (λ t. (idle, t)) (append-nil (blank (8 * suc m)) ∙ blank_eq (8 * suc m) (8 * i))) in
      let first =
        mpsse_add_cmd-Emits usb sent law (header 0x2d m) c idle idle ps (omega arith) reads in
      rw (e, sym (append-nil ps))
        (Emits-then usb sent (λ c. c) (λ c. Unit) (λ c. c) (λ c. Unit) c _ _ idle idle idle ps []
          first (λ c' u room. done-Emits usb sent (λ c. c) (λ c. Unit) c' idle tt room))

  -- A command for at most seven bits that writes.
  write_bits-Sends :
      (op : ℕ) (bs : List ℕ) (m i : ℕ) (c : Ftdi S)
      → m < 7
      → run idle (op ∷ m ∷ []) ≡ (few m, [])
      → Sends c
          (mpsse_add_cmd usb (op ∷ m ∷ []) c >>= add_data usb (some bs) 1 i)
          (data_pulses (some bs) (8 * i) (suc m))
  unfolding add_data
  write_bits-Sends op bs m i c small starts =
      let e : m + 1 ≡ suc m = omega arith in
      let e' : 8 * i + 0 ≡ 8 * i = omega arith in
      let bits : run (few m) (slice 1 i bs) ≡ (idle, data_pulses (some bs) (8 * i) (suc m)) = rw e (
        ap (λ t. (idle, t))
          (append-nil (data_bits (suc m) 0 (get_or bs i 0))
            ∙ rw e' at (data_bits_eq bs (suc m) 0 i (omega (arith, small))))) in
      Emits-then usb sent (λ c. c) (λ c. Unit) (λ c. c) (λ c. Unit) c _ _ idle (few m) idle [] _
        (mpsse_add_cmd-Emits usb sent law (op ∷ m ∷ []) c idle (few m) [] (omega arith) starts)
        (λ c' u room.
          mpsse_add_cmd-Emits usb sent law (slice 1 i bs) c' (few m) idle _ (omega arith) bits)

  pub few_bits-Sends :
      (tdi : Option (List ℕ)) (tdo : Bool) (m i : ℕ) (c : Ftdi S)
      → moves tdi tdo ≡ true
      → m < 8
      → length c.usbuf ≤ tx_buf
      → Sends c (few_bits usb tdi tdo m i c) (data_pulses tdi (8 * i) m)
  unfolding few_bits add_data data_pulses
  few_bits-Sends tdi tdo zero i c used small room =
      done-Emits usb sent (λ c. c) (λ c. Unit) c idle tt room
  few_bits-Sends (some bs) false (suc m) i c used small room =
      let e : suc m - 1 ≡ m = omega arith in
      let z : (suc m == 0) ≡ false = ground arith in
      rw (z, e) (write_bits-Sends 0x1b bs m i c (omega (arith, small)) refl)
  few_bits-Sends (some bs) true (suc m) i c used small room =
      let e : suc m - 1 ≡ m = omega arith in
      let z : (suc m == 0) ≡ false = ground arith in
      rw (z, e) (write_bits-Sends 0x3f bs m i c (omega (arith, small)) refl)
  few_bits-Sends none false (suc m) i c used small room = cc
  few_bits-Sends none true (suc m) i c used small room =
      let e : suc m - 1 ≡ m = omega arith in
      let z : (suc m == 0) ≡ false = ground arith in
      let e' : m + 1 ≡ suc m = omega arith in
      let ps = data_pulses none (8 * i) (suc m) in
      let reads : run idle (0x2f ∷ m ∷ []) ≡ (idle, ps) =
        rw e' (ap (λ t. (idle, t)) (append-nil (blank (suc m)) ∙ blank_eq (suc m) (8 * i))) in
      let first =
        mpsse_add_cmd-Emits usb sent law (0x2f ∷ m ∷ []) c idle idle ps (omega arith) reads in
      rw (z, e, sym (append-nil ps))
        (Emits-then usb sent (λ c. c) (λ c. Unit) (λ c. c) (λ c. Unit) c _ _ idle idle idle ps []
          first (λ c' u room. done-Emits usb sent (λ c. c) (λ c. Unit) c' idle tt room))
