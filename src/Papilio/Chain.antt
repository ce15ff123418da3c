-- ===== src/Papilio/Chain.antt =====
-- papilio-prog/jtag.cpp and jtag.h: the chain of devices behind a cable. What the cable reads from
-- TDO is an argument. Messages on the terminal are left out.
pub mod Align
pub mod Find
pub mod Shift
mod Tests
use pi_industrial_robottools.Base.{
  ℕ, zero, suc, ◌+◌, ◌-◌, ◌*◌, ◌/◌, ◌%◌, ◌^◌, Bool, true, false, ◌&&◌, ◌||◌, List, [], ◌∷◌, Option,
  none, some, leb, ◌==◌, if◌then◌else◌, replicate, get_or, set, get_elem?, length, drop, take,
}
use pi_industrial_robottools.Base.Int.{ℤ, pos, negsuc, ltb_ℤ}
use pi_industrial_robottools.Papilio.Tap.{
  TapState, test_logic_reset, run_test_idle, shift_dr, shift_ir,
}
use pi_industrial_robottools.Papilio.IoBase.{
  IoBase, Result, ◌>>=◌, tap_test_logic_reset, set_tap_state, shift_tdi_tdo, shift, flush_tms,
}
use Result.{ok, stuck}

-- `chainParam_t`
pub record Device : Type 0 where
  pub idcode : ℕ
  pub irlen : ℕ

-- `class Jtag`, less the cable. The device that is nearest to TDI comes first.
pub record Jtag : Type 0 where
  pub devices : List Device
  pub num_devices : ℕ
  pub post_dr_state : TapState
  pub post_ir_state : TapState
  pub device_index : ℤ
  pub shift_dr_incomplete : Bool

-- `Jtag::Jtag`, which leaves `numDevices` as it is.
abbrev pub init : ℕ → Jtag
init num = record {
  devices = [];
  num_devices = num;
  post_dr_state = run_test_idle;
  post_ir_state = run_test_idle;
  device_index = negsuc 0;
  shift_dr_incomplete = false;
}

-- `MAXNUMDEVICES`
abbrev pub max_num_devices : ℕ
max_num_devices = 1000

-- `Jtag::setPostDRState`
abbrev pub set_post_dr_state : TapState → Jtag → Jtag
set_post_dr_state s j = record j { post_dr_state = s }

-- `Jtag::setPostIRState`
abbrev pub set_post_ir_state : TapState → Jtag → Jtag
set_post_ir_state s j = record j { post_ir_state = s }

-- `Jtag::getDeviceID`
abbrev pub get_device_id : List Device → ℕ → ℕ
get_device_id [] i = 0
get_device_id (d ∷ ds) zero = d.idcode
get_device_id (d ∷ ds) (suc i) = get_device_id ds i

-- `Jtag::Usleep`: `flush` and the wait are the cable's and the system's.
abbrev pub usleep : IoBase → IoBase
usleep io = flush_tms io

-- `Jtag::shortToByteArray`
abbrev pub short_to_byte_array : ℕ → List ℕ
short_to_byte_array l = l % 256 ∷ l / 2 ^ 8 % 256 ∷ []

-- `Jtag::longToByteArray`
unfoldable pub long_to_byte_array : ℕ → List ℕ
long_to_byte_array l = l % 256 ∷ l / 2 ^ 8 % 256 ∷ l / 2 ^ 16 % 256 ∷ l / 2 ^ 24 % 256 ∷ []

-- `Jtag::byteArrayToLong`
unfoldable pub byte_array_to_long : List ℕ → ℕ
byte_array_to_long b =
    get_or b 3 0 * 2 ^ 24 + get_or b 2 0 * 2 ^ 16 + get_or b 1 0 * 2 ^ 8 + get_or b 0 0

-- What `getChain` does with an identifier: 0 and 0xffffffff end its loop. `u` is what the length of
-- an instruction holds until it is set.
abbrev pub add_device :
    ℕ → ℕ → Jtag → IoBase → (Jtag → IoBase → Result (Jtag × IoBase)) → Result (Jtag × IoBase)
add_device u id j io again = elim ((id == 0) || (id == 0xffffffff)) [
  | true ↦ ok (j, io)
  | false ↦
      again
        (record j {
          num_devices = j.num_devices + 1;
          devices = record { idcode = id; irlen = u } ∷ j.devices;
        })
        io
]

-- The loop of `getChain`, for as many rounds as it may still make. `tdo i` is what is read in the
-- round `i`.
unfoldable pub identify : ℕ → (ℕ → List ℕ) → ℕ → Jtag → IoBase → Result (Jtag × IoBase)
identify zero tdo u j io = ok (j, io)
identify (suc k) tdo u j io = do
  io' ← shift_tdi_tdo (some (replicate 4 0)) true 32 false io
  add_device u (byte_array_to_long (tdo j.num_devices)) j io' (identify k tdo u)

-- `Jtag::getChain`. The devices of an earlier call are kept.
unfoldable pub get_chain : (ℕ → List ℕ) → ℕ → Jtag → IoBase → Result (Jtag × IoBase)
get_chain tdo u j io = do
  io1 ← tap_test_logic_reset io
  io2 ← set_tap_state shift_dr 0 io1
  (j', io3) ← identify max_num_devices tdo u (record j { num_devices = 0 }) io2
  io4 ← set_tap_state test_logic_reset 0 io3
  ok (j', io4)

-- `Jtag::selectDevice`, which returns the index that it sets.
unfoldable pub select_device : ℤ → Jtag → Jtag
select_device dev j = record j {
  device_index = if ltb_ℤ dev (pos j.num_devices) then dev else negsuc 0;
}

-- `while(pre<=0)pre+=align;` from `pre = -post`, with fuel: `up` is what was added so far.
unfoldable pub align_pre : ℕ → ℕ → ℕ → ℕ → Result ℕ
align_pre zero align post up = stuck
align_pre (suc fuel) align post up =
    let more = align_pre fuel align post (up + align) in
    if leb up post then more else ok (up - post)

-- The clocks in front of the selected device.
unfoldable pub dr_pre : ℕ → ℕ → Jtag → Result ℕ
dr_pre align post j =
    if align == 0 then ok (j.num_devices - post - 1) else align_pre (post + 2) align post 0

-- The four calls of a shift of the cable, by the buffers that there are.
abbrev pub shift_data : Option (List ℕ) → Bool → ℕ → Bool → IoBase → Result IoBase
shift_data none false n last io = shift false n last io
shift_data tdi reads n last io = shift_tdi_tdo tdi reads n last io

abbrev pub start_dr : ℕ → ℕ → Jtag → IoBase → Result IoBase
start_dr align post j io =
    if j.shift_dr_incomplete
    then ok io
    else dr_pre align post j >>= λ pre. set_tap_state shift_dr pre io

-- After the data: the bits for the devices behind, and the state to go to.
abbrev pub end_dr : Bool → ℕ → Jtag → IoBase → Result (Jtag × IoBase)
end_dr true post j io = do
  io' ← shift false post true io
  io'' ← set_tap_state j.post_dr_state 0 io'
  ok (record j { shift_dr_incomplete = false }, io'')
end_dr false post j io = ok (record j { shift_dr_incomplete = true }, io)

-- `if(deviceIndex<0)return;`
abbrev pub selected {ℓ} : {A : Type ℓ} → ℤ → A → (ℕ → A) → A
selected (negsuc i) a f = a
selected (pos i) a f = f i

-- `Jtag::shiftDR`
unfoldable pub shift_data_register :
    Option (List ℕ) → Bool → ℕ → ℕ → Bool → Jtag → IoBase → Result (Jtag × IoBase)
shift_data_register tdi reads n align exit j io = selected j.device_index (ok (j, io)) (λ post. do
  io1 ← start_dr align post j io
  io2 ← shift_data tdi reads n ((post == 0) && exit) io1
  end_dr exit post j io2)

-- The bits of the instructions of some devices.
abbrev pub ir_bits : List Device → ℕ
ir_bits [] = 0
ir_bits (d ∷ ds) = d.irlen + ir_bits ds

abbrev pub ir_length : List Device → ℕ → ℕ
ir_length [] i = 0
ir_length (d ∷ ds) zero = d.irlen
ir_length (d ∷ ds) (suc i) = ir_length ds i

-- `Jtag::shiftIR`
unfoldable pub shift_instruction : List ℕ → Bool → Jtag → IoBase → Result IoBase
shift_instruction tdi reads j io = elim j.device_index [
  | negsuc _ ↦ ok io
  | pos dev ↦ do
    io1 ← set_tap_state shift_ir 0 io
    let pre = ir_bits (drop (suc dev) (take j.num_devices j.devices))
    let post = ir_bits (take dev j.devices)
    io2 ← shift true pre false io1
    io3 ← shift_tdi_tdo (some tdi) reads (ir_length j.devices dev) (post == 0) io2
    io4 ← shift true post true io3
    set_tap_state j.post_ir_state 0 io4
]

-- `devices[dev].irlen=len`
unfoldable pub put_ir_length : ℕ → List Device → ℕ → List Device
put_ir_length len [] i = []
put_ir_length len (d ∷ ds) zero = record d { irlen = len } ∷ ds
put_ir_length len (d ∷ ds) (suc i) = d ∷ put_ir_length len ds i

-- `Jtag::setDeviceIRLength`, for an index that is not negative: the value returned, `none` for -1.
unfoldable pub set_device_ir_length : ℕ → ℕ → Jtag → Jtag × Option ℕ
set_device_ir_length dev len j =
    if leb j.num_devices dev
    then (j, none)
    else (record j { devices = put_ir_length len j.devices dev }, some dev)
