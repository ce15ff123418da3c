-- ===== src/Papilio/Ftdi.antt =====
-- papilio-prog/ioftdi.cpp and ioftdi.h: the cable with an FTDI chip, by libftdi. The calls of that
-- library are a parameter, `Usb`, over any state `S` of the chip. The counters of calls and the
-- messages are left out.
pub mod Block
mod Tests
pub mod Engine
pub mod Emits
use pi_industrial_robottools.Base.{
  ℕ, zero, suc, ◌+◌, ◌*◌, ◌/◌, ◌%◌, ◌^◌, ◌-◌, Bool, true, false, not, ◌&&◌, List, [], ◌∷◌, ◌++◌,
  length, get_or, ltb, leb, ◌==◌, if◌then◌else◌, bit_or,
}
use pi_industrial_robottools.Papilio.Tap.{TapState, test_logic_reset}

-- `ftdi_write_data`, which answers how many bytes it wrote, and `ftdi_read_data`, which reads a number
-- of bytes at most and answers the bytes and `errno`.
pub record Usb (S : Type 0) : Type 0 where
  pub write : List ℕ → S → S × ℕ
  pub read : ℕ → S → S × List ℕ × ℕ

-- `class IOFtdi`: the first `bptr` bytes of `usbuf`, and the chip.
pub record Ftdi (S : Type 0) : Type 0 where
  pub usbuf : List ℕ
  pub device : S

-- What a call leaves: `overrun` is a write past the end of `usbuf`.
pub data Outcome {ℓ} (A : Type ℓ) : Type ℓ where
  ok : A → Outcome A
  io_exception overrun : Outcome A

infixl 5 ◌>>=◌
abbrev pub ◌>>=◌ {ℓ κ} : {A : Type ℓ} {B : Type κ} → Outcome A → (A → Outcome B) → Outcome B
ok a >>= k = k a
io_exception >>= k = io_exception
overrun >>= k = overrun

-- `TX_BUF`
abbrev pub tx_buf : ℕ
tx_buf = 4096

-- The commands of ioftdi.h that are used.
abbrev pub mpsse_write_neg : ℕ
mpsse_write_neg = 0x01

abbrev pub mpsse_bitmode : ℕ
mpsse_bitmode = 0x02

abbrev pub mpsse_read_neg : ℕ
mpsse_read_neg = 0x04

abbrev pub mpsse_lsb : ℕ
mpsse_lsb = 0x08

abbrev pub mpsse_do_write : ℕ
mpsse_do_write = 0x10

abbrev pub mpsse_do_read : ℕ
mpsse_do_read = 0x20

abbrev pub mpsse_write_tms : ℕ
mpsse_write_tms = 0x40

abbrev pub send_immediate : ℕ
send_immediate = 0x87

-- `MPSSE_WRITE_TMS|MPSSE_LSB|MPSSE_BITMODE|MPSSE_WRITE_NEG`
abbrev pub tms_command : ℕ
tms_command = 0x4b

-- The bit `j` of a buffer.
abbrev pub bit_at : List ℕ → ℕ → ℕ
bit_at pat j = get_or pat (j / 8) 0 / 2 ^ (j % 8) % 2

-- The inner loop of `tx_tms`: `n` bits from the bit `j` on go to the places `i` and so on.
unfoldable pub pack_tms : ℕ → ℕ → ℕ → List ℕ → ℕ
pack_tms zero i j pat = 0
pack_tms (suc n) i j pat = bit_at pat j * 2 ^ i + pack_tms n (suc i) (suc j) pat

-- What the loop of `readusb` keeps.
pub record Reading (S : Type 0) : Type 0 where
  pub device : S
  pub bytes : List ℕ
  pub timeout : ℕ
  pub last_errno : ℕ

-- `current_state==TEST_LOGIC_RESET`
abbrev pub is_reset : TapState → Bool
is_reset test_logic_reset = true
is_reset _ = false

module _ {S : Type 0} (usb : Usb S) where
  -- `mpsse_send`
  unfoldable pub mpsse_send : Ftdi S → Outcome (Ftdi S)
  mpsse_send c =
      let w = usb.write c.usbuf c.device in
      if length c.usbuf == 0
      then ok c
      else (if w.1 == length c.usbuf
          then ok (record { usbuf = []; device = w.0 })
          else io_exception)

  -- `memcpy` to the end of what `usbuf` holds.
  unfoldable pub put : List ℕ → Ftdi S → Outcome (Ftdi S)
  put buf c =
      if leb (length c.usbuf + length buf) tx_buf
      then ok (record c { usbuf = c.usbuf ++ buf })
      else overrun

  -- `mpsse_add_cmd`
  unfoldable pub mpsse_add_cmd : List ℕ → Ftdi S → Outcome (Ftdi S)
  mpsse_add_cmd buf c =
      if leb tx_buf (length c.usbuf + length buf + 1) then (mpsse_send c >>= put buf) else put buf c

  -- The loop of `readusb`, for as many rounds as it makes at most.
  unfoldable pub read_more : ℕ → ℕ → Reading S → Reading S
  read_more zero len r = r
  read_more (suc n) len r =
      let q = usb.read (len - length r.bytes) r.device in
      let next = read_more n len (record {
        device = q.0;
        bytes = r.bytes ++ q.1;
        timeout = r.timeout + 1;
        last_errno = if length q.1 == 0 then q.2 else 0;
      }) in
      if ltb (length r.bytes) len then next else r

  -- The first read of `readusb`, and its end.
  abbrev first_read : ℕ → Ftdi S → Reading S
  first_read len c =
      let q = usb.read len c.device in
      record { device = q.0; bytes = q.1; timeout = 0; last_errno = 0 }

  abbrev finish_read : Reading S → Ftdi S → Outcome (Ftdi S × List ℕ)
  finish_read r c =
      if leb 50 r.timeout && not (r.last_errno == 0)
      then io_exception
      else ok (record c { device = r.device }, r.bytes)

  -- `readusb`, with the bytes that it reads.
  unfoldable pub readusb : ℕ → Ftdi S → Outcome (Ftdi S × List ℕ)
  readusb len c = do
    c ← mpsse_add_cmd (send_immediate ∷ []) c
    c ← mpsse_send c
    finish_read (read_more 100 len (first_read len c)) c

  -- The loop of `tx_tms`, from the bit `j` on: each command has seven bits at most. It has fuel.
  unfoldable pub tx_tms_loop : ℕ → List ℕ → ℕ → ℕ → Ftdi S → Outcome (Ftdi S)
  tx_tms_loop zero pat j len c = ok c
  tx_tms_loop (suc fuel) pat j len c =
      let n = if ltb 7 len then 7 else len in
      let next =
        mpsse_add_cmd (tms_command ∷ (n - 1) ∷ (0x80 + pack_tms n 0 j pat) ∷ []) c
        >>= tx_tms_loop fuel pat (j + n) (len - 7) in
      if len == 0 then ok c else next

  -- `tx_tms`
  unfoldable pub tx_tms : List ℕ → ℕ → Ftdi S → Outcome (Ftdi S)
  tx_tms pat length c = tx_tms_loop length pat 0 length c

  -- The loop of `cycleTCK`. The conditional binds less than `|`: with `tdi`, TMS is low.
  unfoldable pub cycle_loop : ℕ → ℕ → Bool → TapState → Ftdi S → Outcome (Ftdi S)
  cycle_loop zero n tdi current_state c = ok c
  cycle_loop (suc fuel) n tdi current_state c =
      let clocks = if ltb 6 n then 7 else n in
      let rest = n - clocks in
      let out = if tdi then 0x80 else (if is_reset current_state then 0x7f else 0x00) in
      let next = mpsse_add_cmd (tms_command ∷ (clocks - 1) ∷ out ∷ []) c >>= λ c.
      (if rest == 0 then mpsse_send c else cycle_loop fuel rest tdi current_state c) in
      if n == 0 then ok c else next

  -- `cycleTCK`
  unfoldable pub cycle_tck : ℕ → Bool → TapState → Ftdi S → Outcome (Ftdi S)
  cycle_tck n tdi current_state c = cycle_loop n n tdi current_state c

  -- What the constructor sends to a chip that it has opened, by the kind of the cable: 0 is
  -- `FTDI_NO_EN` and 1 is `FTDI_IKDA`.
  unfoldable pub prepare : ℕ → S → Outcome (Ftdi S)
  prepare subtype device =
      let c : Ftdi S = record { usbuf = []; device = device } in
      let low = 0x80 ∷ 0x08 ∷ 0x0b ∷ 0x86 ∷ 0x00 ∷ 0x00 ∷ [] in
      (if subtype == 0
        then mpsse_add_cmd low c
        else (if subtype == 1 then mpsse_add_cmd (low ++ 0x82 ∷ 0xfb ∷ 0x04 ∷ []) c else ok c))
      >>= mpsse_send
