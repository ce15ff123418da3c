-- ===== src/Papilio/Ftdi/Block.antt =====
-- `txrx_block` of papilio-prog/ioftdi.cpp. The pointer `tmpsbuf` is the buffer `tdi` and a position in
-- it; a byte past its end counts as 0. `tdo` says whether there is a buffer to read into.
use pi_industrial_robottools.Base.{
  ℕ, zero, suc, ◌+◌, ◌*◌, ◌/◌, ◌%◌, ◌^◌, ◌-◌, Bool, true, false, List, [], ◌∷◌, ◌++◌, Option, none,
  some, length, get_or, set, take, ltb, leb, ◌==◌, if◌then◌else◌, bit_or, bit_and,
}
use pi_industrial_robottools.Papilio.Ftdi.{
  Usb, Ftdi, Outcome, ok, ◌>>=◌, tx_buf, mpsse_write_neg, mpsse_bitmode, mpsse_read_neg, mpsse_lsb,
  mpsse_do_write, mpsse_do_read, tms_command, mpsse_add_cmd, readusb,
}

-- `n` bytes of a buffer from the place `i` on.
abbrev pub slice : ℕ → ℕ → List ℕ → List ℕ
slice zero i bs = []
slice (suc n) i bs = get_or bs i 0 ∷ slice n (i + 1) bs

-- Where a block stands: the position of `tmpsbuf`, the bytes written to `tdo`, and the cable.
pub record Block (S : Type 0) : Type 0 where
  pub at : ℕ
  pub got : List ℕ
  pub cable : Ftdi S

-- `((tdo)?(MPSSE_DO_READ|MPSSE_READ_NEG):0)`
abbrev pub reading : Bool → ℕ
reading tdo = if tdo then bit_or mpsse_do_read mpsse_read_neg else 0

-- The first byte of a command for whole bytes.
abbrev pub byte_command : Option (List ℕ) → Bool → ℕ
byte_command none tdo = bit_or (reading tdo) (bit_or mpsse_lsb mpsse_write_neg)
byte_command (some bs) tdo =
    bit_or (reading tdo) (bit_or mpsse_do_write (bit_or mpsse_lsb mpsse_write_neg))

-- The first byte of a command for fewer than eight bits.
abbrev pub bit_command : Option (List ℕ) → Bool → ℕ
bit_command tdi tdo = bit_or (byte_command tdi tdo) mpsse_bitmode

-- `lastbit`: what TDI is set to with the last bit.
abbrev pub last_bit : Option (List ℕ) → ℕ → ℕ → ℕ
last_bit none i k = 1
last_bit (some bs) i k = if get_or bs i 0 / 2 ^ k % 2 == 1 then 0x81 else 1

-- What is read last: with a last bit, it is joined to the bits in front of it.
unfoldable pub join_last : ℕ → ℕ → List ℕ → List ℕ
join_last rembits buflen rbuf =
    let final = get_or rbuf (buflen - 1) 0 in
    if rembits == 0
    then take buflen (set rbuf (buflen - 1) (if bit_and final 80 == 0 then 0 else 1))
    else take (buflen - 1) (
        set rbuf (buflen - 2) (
          bit_or (get_or rbuf (buflen - 2) 0 / 2 ^ (8 - rembits))
            (bit_and final 0x80 / 2 ^ (7 - rembits))))

module _ {S : Type 0} (usb : Usb S) where
  -- `if(tdi) mpsse_add_cmd(tmpsbuf, n);`
  unfoldable pub add_data : Option (List ℕ) → ℕ → ℕ → Ftdi S → Outcome (Ftdi S)
  add_data none n i c = ok c
  add_data (some bs) n i c = mpsse_add_cmd usb (slice n i bs) c

  -- A command for `n` whole bytes, `n` being 1 at least, and their data.
  unfoldable pub add_bytes : Option (List ℕ) → Bool → ℕ → ℕ → Ftdi S → Outcome (Ftdi S)
  add_bytes tdi tdo n i c =
      mpsse_add_cmd usb (byte_command tdi tdo ∷ ((n - 1) % 256) ∷ ((n - 1) / 256 % 256) ∷ []) c
      >>= add_data tdi n i

  -- `if(tdo) readusb(..)` of `n` bytes, which go to the end of what was read.
  unfoldable pub read_block : Bool → ℕ → Block S → Outcome (Block S)
  read_block false n b = ok b
  read_block true n b =
      readusb usb n b.cable >>= λ r. ok (record b { got = b.got ++ slice n 0 r.1; cable = r.0 })

  -- The loop over full chunks of 4093 bytes, `buflen`, with fuel, and the bits that are left.
  unfoldable pub full_chunks : ℕ → Option (List ℕ) → Bool → ℕ → Block S → Outcome (ℕ × Block S)
  full_chunks zero tdi tdo rem b = ok (rem, b)
  full_chunks (suc fuel) tdi tdo rem b =
      let next = add_bytes tdi tdo (tx_buf - 3) b.at b.cable >>= λ c.
      read_block tdo (tx_buf - 3) (record b { at = b.at + (tx_buf - 3); cable = c })
      >>= full_chunks fuel tdi tdo (rem - (tx_buf - 3) * 8) in
      if ltb (tx_buf - 3) (rem / 8) then next else ok (rem, b)

  -- The bytes behind the chunks, `n` of them.
  unfoldable pub whole_bytes : Option (List ℕ) → Bool → ℕ → Block S → Outcome (Block S)
  whole_bytes tdi tdo n b =
      if n == 0
      then ok b
      else (add_bytes tdi tdo n b.at b.cable >>= λ c. ok (record b { at = b.at + n; cable = c }))

  -- `No space for the last data`: the bytes are read at once, and none is left to be read.
  unfoldable pub read_early : Bool → ℕ → Block S → Outcome (ℕ × Block S)
  read_early tdo n b =
      if leb (tx_buf - 4) n then (read_block tdo n b >>= λ b. ok (0, b)) else ok (n, b)

  -- The bits behind the last whole byte, fewer than eight.
  unfoldable pub few_bits : Option (List ℕ) → Bool → ℕ → ℕ → Ftdi S → Outcome (Ftdi S)
  few_bits tdi tdo rembits i c =
      if rembits == 0
      then ok c
      else (mpsse_add_cmd usb (bit_command tdi tdo ∷ (rembits - 1) ∷ []) c >>= add_data tdi 1 i)

  -- The last bit, with TMS high.
  unfoldable pub exit_bit : Option (List ℕ) → Bool → Bool → ℕ → ℕ → Ftdi S → Outcome (Ftdi S)
  exit_bit tdi tdo false rembits i c = ok c
  exit_bit tdi tdo true rembits i c =
      mpsse_add_cmd usb (bit_or (reading tdo) tms_command ∷ 0 ∷ last_bit tdi i rembits ∷ []) c

  -- What is read at the end, of `buflen` bytes.
  unfoldable pub read_end : Bool → Bool → ℕ → ℕ → Block S → Outcome (Block S)
  read_end false last rembits buflen b = ok b
  read_end true false rembits buflen b = read_block true buflen b
  read_end true true rembits buflen b = readusb usb buflen b.cable >>= λ r.
      ok (record b { got = b.got ++ join_last rembits buflen (slice buflen 0 r.1); cable = r.0 })

  -- All that follows the chunks.
  unfoldable pub finish_block : Option (List ℕ) → Bool → Bool → ℕ → Block S → Outcome (Block S)
  finish_block tdi tdo last rem b =
      let rembits = rem % 8 in
      whole_bytes tdi tdo (rem / 8) b >>= λ b. read_early tdo (rem / 8) b >>= λ e.
      few_bits tdi tdo rembits e.1.at e.1.cable >>= λ c.
      exit_bit tdi tdo last rembits e.1.at c >>= λ c.
      read_end tdo last rembits (e.0 + (if rembits == 0 then 0 else 1) + (if last then 1 else 0))
        (record e.1 { cable = c })

  -- `txrx_block`: the cable, and what is written to `tdo`. `rem` is unsigned.
  unfoldable pub txrx_block : Option (List ℕ) → Bool → ℕ → Bool → Ftdi S → Outcome (Ftdi S × List ℕ)
  txrx_block tdi tdo length last c =
      let rem = if last then (length + (2 ^ 32 - 1)) % 2 ^ 32 else length in
      full_chunks (rem / 8 / (tx_buf - 3) + 1) tdi tdo rem (record { at = 0; got = []; cable = c })
      >>= λ r. finish_block tdi tdo last r.0 r.1 >>= λ b. ok (b.cable, b.got)
