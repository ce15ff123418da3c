-- ===== src/Papilio/DeviceDb/Tests.antt =====
-- Examples for papilio-prog/devicedb.cpp.
use pi_industrial_robottools.Base.{ℕ, ◌≡◌, refl, arith, true, List, [], ◌∷◌, none, some, Option}
use pi_industrial_robottools.Base.Int.{ℤ, pos}
use pi_industrial_robottools.Papilio.Chain.{Jtag, init, set_device_ir_length, put_ir_length}
use pi_industrial_robottools.Papilio.DeviceDb.{
  DeviceDb, find_entry, load_device, sync, open_db, read_lines, not_empty, pieces,
}
use pi_industrial_robottools.Papilio.DeviceDb.Synced.{After, sync-Synced}

-- A scanner of lines of three characters: the identifier, the length and the name.
abbrev scan : List ℕ → Option (ℕ × ℤ × List ℕ)
scan (a ∷ b ∷ c ∷ []) = some (a, pos b, c ∷ [])
scan _ = none

abbrev some_db : DeviceDb
some_db = record {
  id_db =
      record { idcode = 7; irlen = pos 6; text = [] }
      ∷ record { idcode = 9; irlen = pos 4; text = [] }
      ∷ [];
  devices = [];
}

-- Pieces between semicolons, of which empty ones are left out.
built_in :
    open_db scan none (b';' ∷ 7 ∷ 6 ∷ 65 ∷ b';' ∷ b';' ∷ 1 ∷ b';' ∷ 9 ∷ 4 ∷ 66 ∷ []) ≡ record {
      id_db =
          record { idcode = 7; irlen = pos 6; text = 65 ∷ [] }
          ∷ record { idcode = 9; irlen = pos 4; text = 66 ∷ [] }
          ∷ [];
      devices = [];
    }
unfolding open_db read_lines not_empty pieces
built_in = refl

abbrev two_devices : Jtag
two_devices = record (init 2) {
  devices = record { idcode = 9; irlen = 0 } ∷ record { idcode = 0x10000007; irlen = 0 } ∷ [];
}

sync_run : (sync 2 0 two_devices some_db).1 ≡ true
unfolding sync load_device find_entry set_device_ir_length put_ir_length
sync_run = refl

sync-Synced_example : After two_devices some_db ((sync 2 0 two_devices some_db).0.0) 1
sync-Synced_example =
    sync-Synced 2 0 1 two_devices some_db sync_run (omega arith) (omega arith) (omega arith)
      (omega arith)
