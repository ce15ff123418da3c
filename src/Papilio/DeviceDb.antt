-- ===== src/Papilio/DeviceDb.antt =====
-- papilio-prog/devicedb.cpp and devicedb.h: the list of known devices, and `get_id` of
-- papilio-prog/butterfly.cpp, which joins it to the chain. `scan` is `sscanf` of a line with "%08x %d
-- %s": the three values if it reads all of them. A file is the list of its lines as `fgets` reads them.
pub mod Synced
mod Tests
use pi_industrial_robottools.Base.{
  ℕ, zero, suc, ◌+◌, ◌*◌, ◌/◌, ◌%◌, ◌^◌, ◌-◌, Bool, true, false, not, ◌&&◌, List, [], ◌∷◌, ◌++◌,
  Option, none, some, length, leb, ltb, ◌==◌, if◌then◌else◌, get_elem?,
}
use pi_industrial_robottools.Base.Int.{ℤ, pos, negsuc}
use pi_industrial_robottools.Papilio.IoBase.{IoBase, Result, ◌>>=◌}
use Result.{ok}
use pi_industrial_robottools.Papilio.Chain.{
  Jtag, get_chain, get_device_id, set_device_ir_length, select_device,
}

-- `device_t`
pub record Entry : Type 0 where
  pub idcode : ℕ
  pub irlen : ℤ
  pub text : List ℕ

-- `class DeviceDB`, less the name of the file.
pub record DeviceDb : Type 0 where
  pub id_db : List Entry
  pub devices : List Entry

-- `& 0x0fffffff`
abbrev pub mask : ℕ → ℕ
mask id = id % 2 ^ 28

-- A line that was scanned.
abbrev pub entry : ℕ × ℤ × List ℕ → Entry
entry (idr, irlen, text) = record { idcode = mask idr; irlen = irlen; text = text }

module _ (scan : List ℕ → Option (ℕ × ℤ × List ℕ)) where
  -- The loop of the constructor over the lines of a file.
  unfoldable pub read_lines : List (List ℕ) → List Entry
  read_lines [] = []
  read_lines (buffer ∷ rest) =
      let others = read_lines rest in
      elim (scan buffer) [ some r ↦ entry r ∷ others | none ↦ others ]

  -- The pieces of the built-in list between semicolons; `piece` is what was read of one.
  unfoldable pub pieces : List ℕ → List ℕ → List (List ℕ)
  pieces piece [] = piece ∷ []
  pieces piece (c ∷ p) = if c == b';' then piece ∷ pieces [] p else pieces (piece ++ c ∷ []) p

  -- `if (i && ..)`: an empty piece is left out.
  unfoldable pub not_empty : List (List ℕ) → List (List ℕ)
  not_empty [] = []
  not_empty ([] ∷ rest) = not_empty rest
  not_empty ((c ∷ cs) ∷ rest) = (c ∷ cs) ∷ not_empty rest

  -- `DeviceDB::DeviceDB`, of a file or, if it cannot be opened, of the built-in list.
  unfoldable pub open_db : Option (List (List ℕ)) → List ℕ → DeviceDb
  open_db (some lines) fb_string = record { id_db = read_lines lines; devices = [] }
  open_db none fb_string = record {
    id_db = read_lines (not_empty (pieces [] fb_string));
    devices = [];
  }

-- The first entry of a device.
unfoldable pub find_entry : ℕ → List Entry → Option Entry
find_entry id [] = none
find_entry id (e ∷ es) = let rest = find_entry id es in if mask id == e.idcode then some e else rest

-- `DeviceDB::loadDevice`
unfoldable pub load_device : ℕ → DeviceDb → DeviceDb × ℤ
load_device id db = elim (find_entry id db.id_db) [
  | some e ↦ (record db { devices = db.devices ++ e ∷ [] }, e.irlen)
  | none ↦ (db, pos 0)
]

-- `DeviceDB::getIRLength`
unfoldable pub get_ir_length : ℕ → DeviceDb → ℤ
get_ir_length i db = elim (get_elem? db.devices i) [ some e ↦ e.irlen | none ↦ pos 0 ]

-- `DeviceDB::getDeviceDescription`
unfoldable pub get_device_description : ℕ → DeviceDb → Option (List ℕ)
get_device_description i db = elim (get_elem? db.devices i) [ some e ↦ some e.text | none ↦ none ]

-- `if(length>0) .. else ..`
abbrev pub by_length : {A : Type 0} → ℤ → A → (ℕ → A) → A
by_length (pos zero) stop next = stop
by_length (pos (suc l)) stop next = next l
by_length (negsuc l) stop next = stop

-- The loop of `get_id` over the devices of the chain: `n` of them from the device `i` on. It ends at one
-- with no length in the list.
unfoldable pub sync : ℕ → ℕ → Jtag → DeviceDb → (Jtag × DeviceDb) × Bool
sync zero i j db = ((j, db), true)
sync (suc n) i j db =
    let r = load_device (get_device_id j.devices i) db in
    by_length r.1 ((j, r.0), false) (λ l. sync n (suc i) ((set_device_ir_length i (suc l) j).0) r.0)

-- `selectDevice`, and the identifier if the position is in the chain.
unfoldable pub select : ℕ → Jtag → Jtag × ℕ
select chainpos j =
    let j' = select_device (pos chainpos) j in
    (j', if ltb chainpos j.num_devices then get_device_id j.devices chainpos else 0)

-- `get_id`, for a position that is not negative: 0 is an error. The arguments are those of `get_chain`.
unfoldable pub get_id :
    (ℕ → List ℕ) → ℕ → ℕ → Jtag → DeviceDb → IoBase → Result ((Jtag × DeviceDb × IoBase) × ℕ)
get_id tdo u chainpos jtag db io = do
  (j, io) ← get_chain tdo u jtag io
  (let s = sync j.num_devices 0 j db in
      let p = select chainpos s.0.0 in
      if j.num_devices == 0
      then ok ((j, db, io), 0)
      else (if s.1 then ok ((p.0, s.0.1, io), p.1) else ok ((s.0.0, s.0.1, io), 0)))
