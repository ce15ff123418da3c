-- ===== src/Papilio/IoBase/Steps.antt =====
-- Each step of papilio-prog/iobase.cpp adds its TMS bits to the row, and stays in the buffer.
use mathlib.Core.List.{append-nil, append_assoc}
use pi_industrial_robottools.Base.{
  ℕ, zero, suc, ◌+◌, ◌-◌, ◌≤◌, ◌<◌, ◌≡◌, refl, ap, sym, ◌∙◌, ◌⊎◌, arith, Bool, true, false, List,
  [], ◌∷◌, ◌++◌, Option, replicate, ◌==◌,
}
use pi_industrial_robottools.Papilio.Tap.{TapState, test_logic_reset, shift_dr, shift_ir}
use pi_industrial_robottools.Papilio.Tap.Standard.{tap_next}
use pi_industrial_robottools.Papilio.IoBase.{
  IoBase, txrx_block, Result, ok, fault, put_bit, make_room, chunk_bits, put_ones,
  tap_test_logic_reset, next_tap_state, shift_tdi_tdo, shift,
}
use pi_industrial_robottools.Papilio.IoBase.Buffer.{
  with_event, with_event-stream, stream, event_bits, IsValid, flush_tms-IsValid, flush_tms-state,
  with_bit, put_bit_ok, put_bit_fault, with_bit-IsValid, with_bit-stream, make_room-IsValid,
  make_room-stream, make_room-state, skip, skip-IsValid, skip-stream,
}

-- A step that succeeds: it adds the bits `bs` and leaves the state `s`.
pub record Adds (io : IoBase) (r : Result IoBase) (bs : List Bool) (s : TapState) : Type 0 where
  pub after : IoBase
  pub returns : r ≡ ok after
  pub bits : stream after ≡ stream io ++ bs
  pub state : after.current_state ≡ s
  pub valid : IsValid after

put_bit-Adds :
    (b : Bool) (io : IoBase)
    → IsValid io
    → io.tms_len < chunk_bits
    → Adds io (put_bit b io) (b ∷ []) io.current_state
put_bit-Adds b io v h = record {
  after = with_bit b io;
  returns = put_bit_ok b io h;
  bits = with_bit-stream b io v;
  state = refl;
  valid = with_bit-IsValid b io v h;
}

put_ones-Adds :
    (n : ℕ) (io : IoBase)
    → IsValid io
    → io.tms_len + n ≤ chunk_bits
    → Adds io (put_ones n io) (replicate n true) io.current_state
put_ones-Adds zero io v h = record {
  after = io;
  returns = refl;
  bits = sym (append-nil (stream io));
  state = refl;
  valid = v;
}
put_ones-Adds (suc n) io v h =
    let rest =
      put_ones-Adds n (with_bit true io) (with_bit-IsValid true io v (omega arith)) (omega arith) in
    record {
      after = rest.after;
      returns = rw (put_bit_ok true io (omega arith)) rest.returns;
      bits =
          rest.bits
          ∙ ap (λ bs. bs ++ replicate n true) (with_bit-stream true io v)
          ∙ append_assoc (stream io) (true ∷ []) (replicate n true);
      state = rest.state;
      valid = rest.valid;
    }

-- A reset fits when the buffer has room for five bits.
pub tap_test_logic_reset-Adds :
    (io : IoBase)
    → IsValid io
    → io.tms_len + 5 ≤ chunk_bits
    → Adds io (tap_test_logic_reset io) (replicate 5 true) test_logic_reset
unfolding tap_test_logic_reset
tap_test_logic_reset-Adds io v h =
    let r = put_ones-Adds 5 io v h in
    record {
      after = record (r.after) { current_state = test_logic_reset };
      returns = rw (r.returns) refl;
      bits = r.bits;
      state = refl;
      valid = record { fits = r.valid.fits; clean = r.valid.clean };
    }

-- In a shift state a shift moves to the exit state exactly if its last bit has TMS high.
pub next_tap_state_shift :
    (last : Bool) (io : IoBase) (s : TapState)
    → io.current_state ≡ s
    → (s ≡ shift_dr) ⊎ (s ≡ shift_ir)
    → next_tap_state last io ≡ ok (record io { current_state = tap_next s last })
unfolding next_tap_state
next_tap_state_shift last io s e h = ground arith

-- The bits of a shift: TMS is low but for the last bit.
abbrev pub shift_bits : ℕ → Bool → List Bool
shift_bits n last = replicate n false ++ last ∷ []

event_bits_shift :
    (tdi : Option (List ℕ)) (reads : Bool) (n : ℕ) (last : Bool)
    → event_bits (txrx_block tdi reads (suc n) last) ≡ shift_bits n last
event_bits_shift tdi reads n last =
    let some_bits : (suc n == 0) ≡ false = ground arith in
    let one_less : suc n - 1 ≡ n = omega arith in rw (some_bits, one_less) refl

-- A shift of data in a shift state.
pub shift_tdi_tdo-Adds :
    (tdi : Option (List ℕ)) (reads : Bool) (n : ℕ) (last : Bool) (io : IoBase)
    → (io.current_state ≡ shift_dr) ⊎ (io.current_state ≡ shift_ir)
    → Adds io
        (shift_tdi_tdo tdi reads (suc n) last io)
        (shift_bits n last)
        (tap_next io.current_state last)
unfolding shift_tdi_tdo
shift_tdi_tdo-Adds tdi reads n last io h =
    let event = txrx_block tdi reads (suc n) last in
    let io1 = with_event event io in
    let some_bits : (suc n == 0) ≡ false = ground arith in
    record {
      after = record io1 { current_state = tap_next io.current_state last };
      returns =
          rw some_bits (next_tap_state_shift last io1 io.current_state (flush_tms-state io) h);
      bits =
          with_event-stream event io
          ∙ ap (λ bs. stream io ++ bs) (event_bits_shift tdi reads n last);
      state = refl;
      valid = record { fits = (flush_tms-IsValid io).fits; clean = (flush_tms-IsValid io).clean };
    }

-- A shift of bits that are not looked at, in a shift state, when they fit the buffer.
pub shift-Adds :
    (tdi : Bool) (n : ℕ) (last : Bool) (io : IoBase)
    → IsValid io
    → (make_room io).tms_len + suc n ≤ chunk_bits
    → (io.current_state ≡ shift_dr) ⊎ (io.current_state ≡ shift_ir)
    → Adds io (shift tdi (suc n) last io) (shift_bits n last) (tap_next io.current_state last)
unfolding shift
shift-Adds tdi n last io v room h =
    let io1 = make_room io in
    let io2 = skip n io1 in
    let v2 = skip-IsValid n io1 (make_room-IsValid io v) (omega arith) in
    let some_bits : (suc n == 0) ≡ false = ground arith in
    let one_less : suc n - 1 ≡ n = omega arith in
    let io3 = with_bit last io2 in
    record {
      after = record io3 { current_state = tap_next io.current_state last };
      returns =
          rw (some_bits, one_less, put_bit_ok last io2 (omega arith))
            (next_tap_state_shift last io3 io.current_state (make_room-state io) h);
      bits =
          with_bit-stream last io2 v2
          ∙ ap (λ bs. bs ++ last ∷ [])
              (skip-stream n io1 (make_room-IsValid io v)
                ∙ ap (λ bs. bs ++ replicate n false) (make_room-stream io))
          ∙ append_assoc (stream io) (replicate n false) (last ∷ []);
      state = refl;
      valid =
          let v3 = with_bit-IsValid last io2 v2 (omega arith) in
          record { fits = v3.fits; clean = v3.clean };
    }

-- A shift by `shift` of more bits than are free in the buffer, once that was flushed if full,
-- writes past its end: room is made for one bit only.
pub shift_fault :
    (tdi : Bool) (n : ℕ) (last : Bool) (io : IoBase)
    → chunk_bits < (make_room io).tms_len + suc n
    → shift tdi (suc n) last io ≡ fault
unfolding shift
shift_fault tdi n last io h =
    let some_bits : (suc n == 0) ≡ false = ground arith in
    let one_less : suc n - 1 ≡ n = omega arith in
    rw (some_bits, one_less, put_bit_fault last (skip n (make_room io)) (omega arith)) refl
