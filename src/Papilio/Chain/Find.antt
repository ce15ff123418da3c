-- ===== src/Papilio/Chain/Find.antt =====
-- What `getChain` of papilio-prog/jtag.cpp finds behind a cable.
use pi_industrial_robottools.Base.{
  ℕ, zero, suc, ◌+◌, ◌^◌, ◌<◌, ◌≤◌, ◌≡◌, ◌≢◌, refl, ap, sym, ◌∙◌, arith, true, false, ◌||◌, List,
  [], ◌∷◌, some, length, replicate, ◌==◌, All, inl,
}
use pi_industrial_robottools.Papilio.Tap.{TapState, test_logic_reset, shift_dr, unknown}
use pi_industrial_robottools.Papilio.Tap.Standard.{tap_run, tap_next, tap_run-reset}
use pi_industrial_robottools.Papilio.IoBase.{
  IoBase, Result, ◌>>=◌, chunk_bits, tap_test_logic_reset, set_tap_state, shift_tdi_tdo,
}
use Result.{ok}
use pi_industrial_robottools.Papilio.IoBase.Buffer.{IsValid, stream}
use pi_industrial_robottools.Papilio.IoBase.Steps.{tap_test_logic_reset-Adds}
use pi_industrial_robottools.Papilio.IoBase.InStep.{
  Keeps, Keeps-of_Adds, tap_run_known, set_tap_state-Keeps, shift_tdi_tdo-Keeps,
}
use pi_industrial_robottools.Papilio.Chain.{
  Device, Jtag, long_to_byte_array, byte_array_to_long, add_device, identify, get_chain,
  max_num_devices,
}

-- A number below 2 ^ 32 that `longToByteArray` writes is read back by `byteArrayToLong`.
pub byte_array_to_long-long_to_byte_array :
    (l : ℕ) → l < 2 ^ 32 → byte_array_to_long (long_to_byte_array l) ≡ l
unfolding byte_array_to_long long_to_byte_array
byte_array_to_long-long_to_byte_array l h = omega (arith, h)

-- A number that a device may have as its identifier.
abbrev pub IsId : ℕ → Type 0
IsId id = (((id == 0) || (id == 0xffffffff)) ≡ false) × (id < 2 ^ 32)

-- The cable reads these identifiers, from the round `n` on, and then zeros.
abbrev pub Answers : (ℕ → List ℕ) → ℕ → List ℕ → Type 0
Answers tdo n [] = byte_array_to_long (tdo n) ≡ 0
Answers tdo n (id ∷ ids) = (tdo n ≡ long_to_byte_array id) × Answers tdo (n + 1) ids

-- Each device that is found comes in front of those found before.
abbrev pub found : ℕ → List ℕ → List Device → List Device
found u [] ds = ds
found u (id ∷ ids) ds = found u ids (record { idcode = id; irlen = u } ∷ ds)

-- A call that returns the chain `j`, and leaves the cable and the device in step, in the state `s`.
pub record Yields (at : TapState) (r : Result (Jtag × IoBase)) (j : Jtag) (s : TapState)
    : Type 0 where
  pub after : IoBase
  pub returns : r ≡ ok (j, after)
  pub valid : IsValid after
  pub state : after.current_state ≡ s
  pub in_step : tap_run at (stream after) ≡ s

zeros : List ℕ
zeros = replicate 4 0

-- A round stays in `SHIFT_DR`.
round-Keeps :
    (at : TapState) (io : IoBase)
    → io.current_state ≡ shift_dr
    → tap_run at (stream io) ≡ shift_dr
    → Keeps at (shift_tdi_tdo (some (replicate 4 0)) true 32 false io) shift_dr
round-Keeps at io e step =
    let k =
      shift_tdi_tdo-Keeps at (some (replicate 4 0)) true 31 false io (inl e) (λ _. step ∙ sym e) in
    record {
      after = k.after;
      returns = k.returns;
      valid = k.valid;
      state = k.state ∙ ap (λ s. tap_next s false) e;
      in_step = k.in_step ∙ ap (λ s. tap_next s false) e;
    }

identify-step :
    (k : ℕ) (tdo : ℕ → List ℕ) (u id : ℕ) (j : Jtag) (io io' : IoBase)
    → shift_tdi_tdo (some (replicate 4 0)) true 32 false io ≡ ok io'
    → byte_array_to_long (tdo j.num_devices) ≡ id
    → identify (suc k) tdo u j io ≡ add_device u id j io' (identify k tdo u)
unfolding identify
identify-step k tdo u id j io io' e f =
    let next : ℕ → IoBase → Result (Jtag × IoBase) =
      λ x io''. add_device u x j io'' (identify k tdo u) in
    ap (λ r. r >>= next (byte_array_to_long (tdo j.num_devices))) e ∙ ap (λ x. next x io') f

add_device-next :
    (u id : ℕ) (j : Jtag) (io : IoBase) (again : Jtag → IoBase → Result (Jtag × IoBase))
    → ((id == 0) || (id == 0xffffffff)) ≡ false
    → add_device u id j io again
      ≡ again
          (record j {
            num_devices = j.num_devices + 1;
            devices = record { idcode = id; irlen = u } ∷ j.devices;
          })
          io
add_device-next u id j io again h = rw (add_device, h) refl

identify-Yields :
    (ids : List ℕ) (k : ℕ) (tdo : ℕ → List ℕ) (u : ℕ) (j : Jtag) (at : TapState) (io : IoBase)
    → length ids < k
    → All IsId ids
    → Answers tdo j.num_devices ids
    → io.current_state ≡ shift_dr
    → tap_run at (stream io) ≡ shift_dr
    → Yields at
        (identify k tdo u j io)
        (record j { num_devices = j.num_devices + length ids; devices = found u ids j.devices })
        shift_dr
identify-Yields ids zero tdo u j at io h v a e s = absurd (omega (arith, h))
identify-Yields [] (suc k) tdo u j at io h v a e s =
    let r = round-Keeps at io e s in
    let same : j.num_devices + 0 ≡ j.num_devices = omega arith in
    record {
      after = r.after;
      returns = identify-step k tdo u 0 j io r.after r.returns a ∙ rw same;
      valid = r.valid;
      state = r.state;
      in_step = r.in_step;
    }
identify-Yields (id ∷ ids) (suc k) tdo u j at io h v a e s =
    let r = round-Keeps at io e s in
    let j' : Jtag = record j {
      num_devices = j.num_devices + 1;
      devices = record { idcode = id; irlen = u } ∷ j.devices;
    } in
    let rest = identify-Yields ids k tdo u j' at r.after (omega arith) v.1 a.1 r.state r.in_step in
    let same : j.num_devices + suc (length ids) ≡ j.num_devices + 1 + length ids = omega arith in
    let read = ap byte_array_to_long a.0 ∙ byte_array_to_long-long_to_byte_array id v.0.1 in
    record {
      after = rest.after;
      returns = rw same (
          identify-step k tdo u id j io r.after r.returns read
          ∙ add_device-next u id j r.after (identify k tdo u) v.0.0
          ∙ rest.returns);
      valid = rest.valid;
      state = rest.state;
      in_step = rest.in_step;
    }

reset-Keeps :
    (at : TapState) (io : IoBase)
    → at ≢ unknown
    → IsValid io
    → io.tms_len + 5 ≤ chunk_bits
    → Keeps at (tap_test_logic_reset io) test_logic_reset
reset-Keeps at io k v room =
    Keeps-of_Adds at (tap_test_logic_reset-Adds io v room)
      (tap_run-reset (tap_run at (stream io)) (tap_run_known (stream io) at k))

-- From a state `s` in which the two are in step to a state `t`.
pub move-Keeps :
    (at s t : TapState) (io : IoBase)
    → at ≢ unknown
    → s ≢ unknown
    → t ≢ unknown
    → IsValid io
    → io.current_state ≡ s
    → tap_run at (stream io) ≡ s
    → Keeps at (set_tap_state t 0 io) t
move-Keeps at s t io ka ks kt v e step =
    set_tap_state-Keeps at t 0 io ka kt v (λ _. step ∙ sym e) (λ u. absurd (ks (sym e ∙ u)))
      (omega arith) (inl refl)

reset_known : test_logic_reset ≢ unknown
reset_known e = cc

shift_known : shift_dr ≢ unknown
shift_known e = cc

-- When a cable reads the identifiers of fewer than 1000 devices and then zeros, each identifier
-- below 2 ^ 32 and neither 0 nor 0xffffffff, `getChain` returns, counts these devices, and puts
-- each in front of those found before; the cable and the TAP controller are both in the reset
-- state then, from whatever known state the controller was in. The buffer is valid before and has
-- room for five bits.
pub get_chain-Yields :
    (ids : List ℕ) (tdo : ℕ → List ℕ) (u : ℕ) (j : Jtag) (at : TapState) (io : IoBase)
    → length ids < 1000
    → All IsId ids
    → Answers tdo 0 ids
    → at ≢ unknown
    → IsValid io
    → io.tms_len + 5 ≤ chunk_bits
    → Yields at
        (get_chain tdo u j io)
        (record j { num_devices = length ids; devices = found u ids j.devices })
        test_logic_reset
unfolding get_chain
get_chain-Yields ids tdo u j at io h v a known valid room =
    let r1 = reset-Keeps at io known valid room in
    let r2 =
      move-Keeps at test_logic_reset shift_dr r1.after known reset_known shift_known r1.valid
        r1.state r1.in_step in
    let j0 : Jtag = record j { num_devices = 0 } in
    let r3 = identify-Yields ids max_num_devices tdo u j0 at r2.after h v a r2.state r2.in_step in
    let r4 =
      move-Keeps at shift_dr test_logic_reset r3.after known shift_known reset_known r3.valid
        r3.state r3.in_step in
    let same : 0 + length ids ≡ length ids = omega arith in
    record {
      after = r4.after;
      returns = rw (r1.returns, r2.returns, r3.returns, r4.returns, same) refl;
      valid = r4.valid;
      state = r4.state;
      in_step = r4.in_step;
    }
