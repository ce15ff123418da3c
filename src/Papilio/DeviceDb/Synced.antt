-- ===== src/Papilio/DeviceDb/Synced.antt =====
-- What `get_id` of papilio-prog/butterfly.cpp leaves in the chain.
use pi_industrial_robottools.Base.{
  ℕ, zero, suc, ◌+◌, ◌≤◌, ◌<◌, ◌≡◌, refl, ap, ◌∙◌, inl, inr, arith, Bool, true, false, List, [],
  ◌∷◌, none, some, length, get_elem?, leb, ◌==◌, Option-cases, Bool-cases,
}
use pi_industrial_robottools.Base.Int.{ℤ, pos, negsuc}
use pi_industrial_robottools.Papilio.Chain.{
  Device, Jtag, get_device_id, put_ir_length, set_device_ir_length,
}
use pi_industrial_robottools.Papilio.DeviceDb.{
  Entry, DeviceDb, find_entry, load_device, by_length, sync,
}

-- A device whose instructions are as long as its entry in the list says, which is some length.
pub record IsSynced (list : List Entry) (d : Device) : Type 0 where
  pub entry : Entry
  pub found : find_entry d.idcode list ≡ some entry
  pub length_eq : entry.irlen ≡ pos d.irlen
  pub positive : 0 < d.irlen

put_ir_length_self :
    (len : ℕ) (ds : List Device) (i : ℕ) (d : Device)
    → get_elem? ds i ≡ some d
    → get_elem? (put_ir_length len ds i) i ≡ some (record d { irlen = len })
unfolding put_ir_length
put_ir_length_self len [] i d h = cc
put_ir_length_self len (x ∷ ds) zero d h =
    ap (λ o. elim o [ some y ↦ some (record y { irlen = len }) | none ↦ none ]) h
put_ir_length_self len (x ∷ ds) (suc i) d h = put_ir_length_self len ds i d h

put_ir_length_other :
    (len : ℕ) (ds : List Device) (i k : ℕ)
    → k < i
    → get_elem? (put_ir_length len ds i) k ≡ get_elem? ds k
unfolding put_ir_length
put_ir_length_other len [] i k lt = refl
put_ir_length_other len (x ∷ ds) zero k lt = absurd (omega (arith, lt))
put_ir_length_other len (x ∷ ds) (suc i) zero lt = refl
put_ir_length_other len (x ∷ ds) (suc i) (suc k) lt =
    put_ir_length_other len ds i k (omega (arith, lt))

get_device_id-put_ir_length :
    (len : ℕ) (ds : List Device) (i k : ℕ)
    → get_device_id (put_ir_length len ds i) k ≡ get_device_id ds k
unfolding put_ir_length
get_device_id-put_ir_length len [] i k = refl
get_device_id-put_ir_length len (x ∷ ds) zero zero = refl
get_device_id-put_ir_length len (x ∷ ds) zero (suc k) = refl
get_device_id-put_ir_length len (x ∷ ds) (suc i) zero = refl
get_device_id-put_ir_length len (x ∷ ds) (suc i) (suc k) = get_device_id-put_ir_length len ds i k

length-put_ir_length :
    (len : ℕ) (ds : List Device) (i : ℕ) → length (put_ir_length len ds i) ≡ length ds
unfolding put_ir_length
length-put_ir_length len [] i = refl
length-put_ir_length len (x ∷ ds) zero = refl
length-put_ir_length len (x ∷ ds) (suc i) = ap suc (length-put_ir_length len ds i)

device_at :
    (ds : List Device) (k : ℕ)
    → k < length ds
    → (d : Device) × (get_elem? ds k ≡ some d) × (d.idcode ≡ get_device_id ds k)
device_at [] k lt = absurd (omega (arith, lt))
device_at (x ∷ ds) zero lt = (x, refl, refl)
device_at (x ∷ ds) (suc k) lt = device_at ds k (omega (arith, lt))

-- A device that `loadDevice` finds with some length.
load_device-found :
    (id l : ℕ) (db : DeviceDb)
    → (load_device id db).1 ≡ pos (suc l)
    → (e : Entry) × (find_entry id db.id_db ≡ some e) × (e.irlen ≡ pos (suc l))
unfolding load_device
load_device-found id l db h = elim (Option-cases (find_entry id db.id_db)) [
  | inl e ↦ (let none_is = rw (load_device, e) at h in cc)
  | inr e ↦ (let (entry, found) = e in (entry, found, rw (load_device, found) at h))
]

load_device-list : (id : ℕ) (db : DeviceDb) → (load_device id db).0.id_db ≡ db.id_db
unfolding load_device
load_device-list id db = elim (Option-cases (find_entry id db.id_db)) [
  | inl h ↦ rw (load_device, h) refl
  | inr h ↦ (let e = h.1 in rw (load_device, e) refl)
]

-- The length of a device in the chain is set.
set_length_eq :
    (i l : ℕ) (j : Jtag)
    → i < j.num_devices
    → (set_device_ir_length i (suc l) j).0
      ≡ record j { devices = put_ir_length (suc l) j.devices i }
unfolding set_device_ir_length
set_length_eq i l j lt = let e : leb j.num_devices i ≡ false = ground (arith, lt) in rw e refl

-- A round that does not end the loop finds a length.
round_goes_on :
    (x : ℤ) (stop : (Jtag × DeviceDb) × Bool) (next : ℕ → (Jtag × DeviceDb) × Bool)
    → stop.1 ≡ false
    → (by_length x stop next).1 ≡ true
    → (l : ℕ) × (x ≡ pos (suc l)) × (by_length x stop next ≡ next l)
round_goes_on (pos zero) stop next s h = cc
round_goes_on (pos (suc l)) stop next s h = (l, refl, refl)
round_goes_on (negsuc l) stop next s h = cc

-- What a loop that ends well leaves at the place `k`.
abbrev pub After : Jtag → DeviceDb → Jtag → ℕ → Type 0
After j db j' k =
    (d : Device) × (get_elem? j'.devices k ≡ some d)
    × (d.idcode ≡ get_device_id j.devices k)
    × IsSynced db.id_db d

sync_step :
    (n i : ℕ) (j : Jtag) (db : DeviceDb)
    → (sync (suc n) i j db).1 ≡ true
    → i < j.num_devices
    → (l : ℕ) × ((load_device (get_device_id j.devices i) db).1 ≡ pos (suc l))
      × (sync (suc n) i j db
          ≡ sync n
              (suc i)
              (record j { devices = put_ir_length (suc l) j.devices i })
              ((load_device (get_device_id j.devices i) db).0))
unfolding sync
sync_step n i j db h lt =
    let r = load_device (get_device_id j.devices i) db in
    let (l, found, e) =
      round_goes_on r.1 ((j, r.0), false)
        (λ l. sync n (suc i) ((set_device_ir_length i (suc l) j).0) r.0) refl h in
    (l, found, e ∙ ap (λ j'. sync n (suc i) j' r.0) (set_length_eq i l j lt))

-- The loop leaves the devices in front of its place as they are.
sync-before :
    (n i k : ℕ) (j : Jtag) (db : DeviceDb)
    → (sync n i j db).1 ≡ true
    → i + n ≤ j.num_devices
    → k < i
    → get_elem? ((sync n i j db).0.0.devices) k ≡ get_elem? j.devices k
unfolding sync
sync-before zero i k j db h room lt = refl
sync-before (suc n) i k j db h room lt =
    let (l, found, e) = sync_step n i j db h (omega (arith, room)) in
    let j1 : Jtag = record j { devices = put_ir_length (suc l) j.devices i } in
    let db1 = (load_device (get_device_id j.devices i) db).0 in
    rw e (
      sync-before n (suc i) k j1 db1 (rw e at h) (omega (arith, room)) (omega (arith, lt))
      ∙ put_ir_length_other (suc l) j.devices i k lt)

-- If the loop of `get_id` over `n` devices from `i` on ends well, then the length of the
-- instructions of each of these devices is the one of the first entry in the list whose
-- identifier agrees but for the revision, and is not 0; the identifiers are as before. The
-- devices are in the chain, and the chain holds as many devices as it counts.
pub sync-Synced :
    (n i k : ℕ) (j : Jtag) (db : DeviceDb)
    → (sync n i j db).1 ≡ true
    → i + n ≤ j.num_devices
    → j.num_devices ≤ length j.devices
    → i ≤ k
    → k < i + n
    → After j db ((sync n i j db).0.0) k
sync-Synced zero i k j db h room known lo hi = absurd (omega (arith, lo, hi))
sync-Synced (suc n) i k j db h room known lo hi =
    let (l, found, e) = sync_step n i j db h (omega (arith, room)) in
    let j1 : Jtag = record j { devices = put_ir_length (suc l) j.devices i } in
    let db1 = (load_device (get_device_id j.devices i) db).0 in
    let h1 = rw e at h in
    let room1 : suc i + n ≤ j.num_devices = omega (arith, room) in
    elim (Bool-cases (k == i)) [
      | inl here ↦
          let same : k ≡ i = ground arith in
          let (d, at, id) = device_at j.devices i (omega (arith, room, known)) in
          let (entry, first, len) = load_device-found (get_device_id j.devices i) l db found in
          let kept = sync-before n (suc i) i j1 db1 h1 room1 (omega arith) in
          rw (same, e)
            (
              record d { irlen = suc l },
              kept ∙ put_ir_length_self (suc l) j.devices i d at,
              id,
              record {
                entry = entry;
                found = rw id first;
                length_eq = len;
                positive = omega arith;
              },
            )
      | inr later ↦
          let lt : i < k = ground arith in
          let (d, at, id, synced) =
            sync-Synced n (suc i) k j1 db1 h1 room1
              (omega (arith, known, length-put_ir_length (suc l) j.devices i)) (omega (arith, lt))
              (omega (arith, hi)) in
          rw e (
            d,
            at,
            id ∙ get_device_id-put_ir_length (suc l) j.devices i k,
            rw (load_device-list (get_device_id j.devices i) db) at synced,
          )
    ]
