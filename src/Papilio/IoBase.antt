-- ===== src/Papilio/IoBase.antt =====
-- papilio-prog/iobase.cpp and iobase.h: the TMS buffer and the TAP state of a JTAG cable. The
-- virtual functions `tx_tms` and `txrx_block` are the cable's: a call of one is an event, kept in
-- order. The constant blocks `ones` and `zeros`, and the progress messages, are left out.
pub mod Buffer
pub mod Steps
pub mod Walk
pub mod SetState
pub mod InStep
pub mod Cycle
use pi_industrial_robottools.Base.{
  ℕ, zero, suc, ◌+◌, ◌-◌, Bool, true, false, ◌||◌, List, [], ◌∷◌, ◌++◌, Option, none, some, ltb,
  leb, replicate, ◌==◌, if◌then◌else◌,
}
use pi_industrial_robottools.Papilio.Tap.{
  TapState, test_logic_reset, shift_dr, exit1_dr, shift_ir, exit1_ir, unknown, same, route,
}

-- The bits of the TMS buffer: `CHUNK_SIZE` is 128 bytes.
abbrev pub chunk_bits : ℕ
chunk_bits = 1024

-- What is asked of the cable: TMS bits, or a shift of `length` bits, with the bytes for TDI if there
-- are any, whether TDO is read, and whether the last bit has TMS high.
pub data Event : Type 0 where
  tx_tms : List Bool → Event
  txrx_block : Option (List ℕ) → Bool → ℕ → Bool → Event

-- `class IOBase`: bit `i % 8` of the byte `tms_buf[i / 8]` is `tms_buf i`. `out` holds the events.
pub record IoBase : Type 0 where
  pub current_state : TapState
  pub tms_buf : ℕ → Bool
  pub tms_len : ℕ
  pub out : List Event

-- `fault` is a write past the end of `tms_buf`; `stuck` is no outcome of the code: a loop of the
-- model ran out of fuel.
pub data Result {ℓ} (A : Type ℓ) : Type ℓ where
  ok : A → Result A
  fault : Result A
  stuck : Result A

infixl 5 ◌>>=◌
abbrev pub ◌>>=◌ {ℓ κ} : {A : Type ℓ} {B : Type κ} → Result A → (A → Result B) → Result B
ok a >>= f = f a
fault >>= f = fault
stuck >>= f = stuck

-- `IOBase::IOBase`
abbrev pub init : IoBase
init = record { current_state = unknown; tms_buf = λ i. false; tms_len = 0; out = [] }

-- The first `n` bits of the buffer.
unfoldable pub read_bits : (ℕ → Bool) → ℕ → List Bool
read_bits f zero = []
read_bits f (suc n) = read_bits f n ++ f n ∷ []

-- `IOBase::flush_tms`
unfoldable pub flush_tms : IoBase → IoBase
flush_tms io = record io {
  tms_buf = λ i. false;
  tms_len = 0;
  out = if io.tms_len == 0 then io.out else io.out ++ tx_tms (read_bits io.tms_buf io.tms_len) ∷ [];
}

-- `tms_buf[tms_len/8] |= b<<(tms_len & 0x7); tms_len++;`
unfoldable pub put_bit : Bool → IoBase → Result IoBase
put_bit b io =
    if ltb io.tms_len chunk_bits
    then ok (record io {
      tms_buf = λ i. if i == io.tms_len then io.tms_buf i || b else io.tms_buf i;
      tms_len = io.tms_len + 1;
    })
    else fault

-- `if( tms_len >= CHUNK_SIZE*8) flush_tms();`
abbrev pub make_room : IoBase → IoBase
make_room io = if leb chunk_bits io.tms_len then flush_tms io else io

-- The loop of `tapTestLogicReset`, which makes no room first.
abbrev pub put_ones : ℕ → IoBase → Result IoBase
put_ones zero io = ok io
put_ones (suc n) io = put_bit true io >>= put_ones n

-- `IOBase::tapTestLogicReset`
unfoldable pub tap_test_logic_reset : IoBase → Result IoBase
tap_test_logic_reset io = do io ← put_ones 5 io; ok (record io { current_state = test_logic_reset })

-- `IOBase::nextTapState`
unfoldable pub next_tap_state : Bool → IoBase → Result IoBase
next_tap_state tms io =
    if same io.current_state shift_dr
    then ok (if tms then record io { current_state = exit1_dr } else io)
    else (if same io.current_state shift_ir
        then ok (if tms then record io { current_state = exit1_ir } else io)
        else tap_test_logic_reset io)

-- `IOBase::shiftTDITDO`; `shiftTDI` and `shiftTDO` are it without one of the buffers.
unfoldable pub shift_tdi_tdo : Option (List ℕ) → Bool → ℕ → Bool → IoBase → Result IoBase
shift_tdi_tdo tdi reads length last io =
    if length == 0
    then ok io
    else (let io' = flush_tms io in
        next_tap_state last (record io' { out = io'.out ++ txrx_block tdi reads length last ∷ [] }))

-- `IOBase::shift`. The value of TDI is not used.
unfoldable pub shift : Bool → ℕ → Bool → IoBase → Result IoBase
shift tdi length last io =
    if length == 0
    then ok io
    else (let io' = make_room io in
        do
          io'' ← put_bit last (record io' { tms_len = io'.tms_len + (length - 1) })
          next_tap_state last io'')

-- What a round does to the state: only the default case, for an unknown state, writes bits.
abbrev pub leave : TapState → TapState → IoBase → Result IoBase
leave unknown state io = tap_test_logic_reset io
leave s state io = ok (record io { current_state = (route s state).next })

-- The body of the loop of `setTapState`.
unfoldable pub round : TapState → IoBase → Result IoBase
round state io = do
  io' ← leave io.current_state state io
  put_bit (route io.current_state state).tms (make_room io')

-- The loop of `setTapState`, with fuel.
unfoldable pub rounds : ℕ → TapState → IoBase → Result IoBase
rounds zero state io = stuck
rounds (suc fuel) state io =
    let more = (round state io >>= rounds fuel state) in
    if same io.current_state state then ok io else more

-- The end of `setTapState`: clocks with TMS low for the bits in front of the device.
unfoldable pub pre_bits : ℕ → IoBase → IoBase
pre_bits pre io =
    if pre == 0
    then io
    else (let io' = if leb chunk_bits (io.tms_len + pre) then flush_tms io else io in
        record io' { tms_len = io'.tms_len + pre })

-- The longest route has this many rounds, and one to find that it has ended.
abbrev pub route_fuel : ℕ
route_fuel = 10

-- `IOBase::setTapState`
unfoldable pub set_tap_state : TapState → ℕ → IoBase → Result IoBase
set_tap_state state pre io = do io' ← rounds route_fuel state io; ok (pre_bits pre io')

-- The loop of `cycleTCK` in the reset state: `n` shifts of one bit.
abbrev pub shift_ones : ℕ → Bool → IoBase → Result IoBase
shift_ones zero tdi io = ok io
shift_ones (suc n) tdi io = shift tdi 1 true io >>= shift_ones n tdi

-- The blocks of at most `CHUNK_SIZE*8` bits that `cycleTCK` shifts, each of ones or of zeros.
unfoldable pub blocks : ℕ → Bool → ℕ → List Event
blocks zero tdi len = []
blocks (suc fuel) tdi len =
    let block : Option (List ℕ) = some (replicate 128 (if tdi then 255 else 0)) in
    let rest = blocks fuel tdi (len - chunk_bits) in
    if ltb chunk_bits len
    then txrx_block block false chunk_bits false ∷ rest
    else txrx_block block false len false ∷ []

-- `IOBase::cycleTCK`
unfoldable pub cycle_tck : ℕ → Bool → IoBase → Result IoBase
cycle_tck n tdi io =
    let io' = flush_tms io in
    if same io'.current_state test_logic_reset
    then shift_ones n tdi io'
    else ok (record io' { out = io'.out ++ blocks (suc n) tdi n })
