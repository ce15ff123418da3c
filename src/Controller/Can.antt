-- ===== src/Controller/Can.antt =====
-- arduino/slcan_controller/SLCan.cpp and SLCan.h: CAN frames as lines of text on a serial port.
-- A `char` is a number below 256. The serial port is not part of the repository: the bytes that
-- `read` yields and the space that `availableForWrite` reports are arguments, and `send` returns
-- the bytes that it writes. A callback is a value of any type `A`.
pub mod Digits
pub mod Decode
pub mod Line
pub mod Receive
pub mod Text
pub mod Complete
pub mod RoundTrip
use pi_industrial_robottools.Base.{
  ℕ, ◌+◌, ◌-◌, ◌*◌, ◌/◌, ◌%◌, ◌^◌, Bool, true, false, not, ◌&&◌, ◌||◌, List, [], ◌∷◌, ◌++◌, Option,
  none, some, ltb, leb, ◌==◌, if◌then◌else◌, length, get_or, set, take, replicate, bit_or,
}

-- `SLC_MTU`: the 31 characters of the longest frame, a NUL and one more.
abbrev pub slc_mtu : ℕ
slc_mtu = 33

-- `hex_to_dec`
unfoldable pub hex_to_dec : ℕ → ℕ
hex_to_dec hex =
    if leb b'0' hex && leb hex b'9'
    then hex - 48
    else (if leb b'A' hex && leb hex b'F'
        then hex - 55
        else (if leb b'a' hex && leb hex b'f' then hex - 87 else 0))

-- `struct CanRxTab`
pub record CanRxTab {ℓ} (A : Type ℓ) : Type ℓ where
  pub can_id : List ℕ
  pub cb : A

-- `class SLCan`
pub record SlCan {ℓ} (A : Type ℓ) : Type ℓ where
  pub rptr : ℕ
  pub rxbuf : List ℕ
  pub tab : List (CanRxTab A)

-- A call of a callback: which, the array `data`, and `len`.
pub record Received {ℓ} (A : Type ℓ) : Type ℓ where
  pub cb : A
  pub bytes : List ℕ
  pub len : ℕ

-- What `handle` does. `overrun` is the write to `data[8]`, one past the end of the array.
pub data Outcome {ℓ} (A : Type ℓ) : Type ℓ where
  ignored : Outcome A
  called : Received A → Outcome A
  overrun : Outcome A

infixl 5 ◌>>=◌
abbrev pub ◌>>=◌ {ℓ κ} : {A : Type ℓ} {B : Type κ} → Option A → (A → Option B) → Option B
none >>= f = none
some a >>= f = f a

-- The byte whose two digits stand at `i` and `i + 1`: `(hex_to_dec(..) << 4) | hex_to_dec(..)`.
unfoldable pub hex_byte : List ℕ → ℕ → ℕ
hex_byte rx i = bit_or (hex_to_dec (get_or rx i 0) * 16) (hex_to_dec (get_or rx (i + 1) 0))

-- `if (test) data[i] = v;`, where `none` is a write outside the array.
abbrev pub store_if : Bool → ℕ → ℕ → List ℕ → Option (List ℕ)
store_if test i v bytes =
    if test then (if ltb i (length bytes) then some (set bytes i v) else none) else some bytes

-- The nine assignments to `data`.
unfoldable pub fill : List ℕ → ℕ → List ℕ → Option (List ℕ)
fill rx len d = do
  d ← store_if (leb 1 len) 0 (hex_byte rx 5) d
  d ← store_if (leb 2 len) 1 (hex_byte rx 7) d
  d ← store_if (leb 2 len) 2 (hex_byte rx 9) d
  d ← store_if (leb 3 len) 3 (hex_byte rx 11) d
  d ← store_if (leb 4 len) 4 (hex_byte rx 13) d
  d ← store_if (leb 5 len) 5 (hex_byte rx 15) d
  d ← store_if (leb 6 len) 6 (hex_byte rx 17) d
  d ← store_if (leb 7 len) 7 (hex_byte rx 19) d
  store_if (leb 8 len) 8 (hex_byte rx 21) d

-- `memcmp(&(_rxbuf[1]), item->CanID, 3) == 0`
abbrev pub same_id : List ℕ → List ℕ → Bool
same_id rx id =
    (get_or rx 1 0 == get_or id 0 0)
    && ((get_or rx 2 0 == get_or id 1 0) && (get_or rx 3 0 == get_or id 2 0))

module _ {ℓ} {A : Type ℓ} where
  -- The loop over the table, up to the first item with the identifier of the frame.
  unfoldable pub find_item : List ℕ → List (CanRxTab A) → Option (CanRxTab A)
  find_item rx [] = none
  find_item rx (item ∷ tab) = if same_id rx item.can_id then some item else find_item rx tab

  abbrev pub deliver : A → ℕ → Option (List ℕ) → Outcome A
  deliver cb len none = overrun
  deliver cb len (some d) = called (record { cb = cb; bytes = d; len = len })

  -- The body of the loop for the item that was found. `stack` is what the array holds at first.
  unfoldable pub handle_item : List ℕ → SlCan A → CanRxTab A → Outcome A
  handle_item stack c item =
      let len = hex_to_dec (get_or c.rxbuf 4 0) in
      if len * 2 == c.rptr - 6 then deliver item.cb len (fill c.rxbuf len stack) else ignored

  abbrev pub handle_found : List ℕ → SlCan A → Option (CanRxTab A) → Outcome A
  handle_found stack c none = ignored
  handle_found stack c (some item) = handle_item stack c item

  -- `SLCan::handle`
  unfoldable pub handle : List ℕ → SlCan A → Outcome A
  handle stack c =
      if ltb c.rptr 6
      then ignored
      else (if get_or c.rxbuf 0 0 == b't'
          then handle_found stack c (find_item c.rxbuf c.tab)
          else ignored)

  -- `SLCan::begin`
  unfoldable pub begin : List (CanRxTab A) → SlCan A → SlCan A
  begin tab c = record c { rptr = 0; tab = tab }

  -- Where the next byte is stored: a full buffer starts over.
  abbrev pub slot : SlCan A → ℕ
  slot c = if leb slc_mtu c.rptr then 0 else c.rptr

  -- `_rxbuf[_rptr++] = bi;`
  unfoldable pub store : ℕ → SlCan A → SlCan A
  store bi c = record c { rptr = slot c + 1; rxbuf = set c.rxbuf (slot c) bi }

  -- After a message: `_rptr = 0; memset(_rxbuf, 0, sizeof(_rxbuf));`
  unfoldable pub restart : SlCan A → SlCan A
  restart c = record c { rptr = 0; rxbuf = replicate slc_mtu 0 }

  -- The body of the loop of `SLCan::input`, for the byte that `read` yields.
  unfoldable pub input_byte : List ℕ → ℕ → SlCan A → SlCan A × Outcome A
  unfolding store restart
  input_byte stack bi c =
      let c' = store bi c in if bi == 13 then (restart c', handle stack c') else (c', ignored)

  -- The rest of the input after one character: an overrun stops the model.
  abbrev pub and_then :
      Outcome A → Option (SlCan A × List (Received A)) → Option (SlCan A × List (Received A))
  and_then overrun rest = none
  and_then ignored rest = rest
  and_then (called r) rest = rest >>= λ p. some (p.0, r ∷ p.1)

  -- `SLCan::input`, for the bytes that `read` yields until `available` is 0, with the calls of
  -- callbacks in their order. `stack` is what the array `data` of `handle` holds at first.
  unfoldable pub input :
      (SlCan A → List ℕ) → List ℕ → SlCan A → Option (SlCan A × List (Received A))
  input stack [] c = some (c, [])
  input stack (bi ∷ rest) c =
      and_then (input_byte (stack c) bi c).1 (input stack rest (input_byte (stack c) bi c).0)

-- A digit of `%x`.
unfoldable pub hex_digit : ℕ → ℕ
hex_digit d = if ltb d 10 then 48 + d else 87 + d

-- The loop of `send` over `buf`.
abbrev pub hex_pairs : List ℕ → List ℕ
hex_pairs [] = []
hex_pairs (b ∷ bs) = hex_digit (b / 16) ∷ hex_digit (b % 16) ∷ hex_pairs bs

-- What `send` writes before the final carriage return.
abbrev pub line : List ℕ → List ℕ → ℕ → List ℕ
line id buf len = b't' ∷ take 3 id ++ hex_digit len ∷ hex_pairs (take len buf)

-- `SLCan::send`: the `bool` that it returns, and the bytes that it writes. The codes 1 and 2 are
-- one `bool`.
unfoldable pub send : List ℕ → List ℕ → ℕ → ℕ → Bool × List ℕ
send id buf len available =
    if not (length id == 3)
    then (true, [])
    else (if ltb 8 len
        then (true, [])
        else (if ltb available (6 + len * 2)
            then (true, [])
            else (false, line id buf len ++ 13 ∷ [])))

-- `SLCan::send8`
unfoldable pub send8 : List ℕ → ℕ → ℕ → Bool × List ℕ
send8 id val available = send id (val ∷ []) 1 available

-- `SLCan::send16`
unfoldable pub send16 : List ℕ → ℕ → ℕ → Bool × List ℕ
send16 id val available = send id (val / 256 % 256 ∷ val % 256 ∷ []) 2 available

-- `SLCan::send32`
unfoldable pub send32 : List ℕ → ℕ → ℕ → Bool × List ℕ
send32 id val available =
    send id (val / 2 ^ 24 % 256 ∷ val / 2 ^ 16 % 256 ∷ val / 2 ^ 8 % 256 ∷ val % 256 ∷ []) 4
      available
