-- ===== src/Stream/Gateway.antt =====
-- controlstream/rover-stick-ctl.c: datagrams in, CAN frames out. The network and the CAN socket are
-- not part of the repository: a turn of the loop is given what `recvfrom` yields, which is nothing
-- for an error that is tried again, and yields the frame that it writes. Of a frame's eight bytes
-- the first four are set.
use pi_industrial_robottools.Base.{
  ℕ, ◌+◌, ◌*◌, ◌/◌, ◌%◌, List, [], ◌∷◌, Option, none, some, ltb, if◌then◌else◌, length, get_or,
  take, bit_or,
}
use pi_industrial_robottools.Base.Int.{ℤ}
use pi_industrial_robottools.Base.Word.{bits16, signed16}

pub record CanFrame : Type 0 where
  pub can_id : ℕ
  pub can_dlc : ℕ
  pub bytes : List ℕ

unfoldable pub send_socketcan : ℤ → ℤ → CanFrame
send_socketcan throttle steering = record {
  can_id = 20;
  can_dlc = 4;
  bytes =
      bits16 throttle / 256 % 256
      ∷ bits16 throttle % 256
      ∷ bits16 steering / 256 % 256
      ∷ bits16 steering % 256
      ∷ [];
}

-- `(uint16_t)buf[i] << 8 | buf[i + 1]`, as an `int16_t`.
unfoldable pub word : List ℕ → ℕ → ℤ
word buf i = signed16 (bit_or (get_or buf i 0 * 256) (get_or buf (i + 1) 0))

-- `check_for_incoming`: the bytes of a datagram that the buffer of 64 takes.
abbrev pub check_for_incoming : Option (List ℕ) → Option (List ℕ)
check_for_incoming none = none
check_for_incoming (some datagram) = some (take 64 datagram)

-- A turn of the loop of `main`.
unfoldable pub turn : Option (List ℕ) → Option CanFrame
turn received = elim (check_for_incoming received) [
  | none ↦ none
  | some buf ↦ if ltb (length buf) 4 then none else some (send_socketcan (word buf 0) (word buf 2))
]
