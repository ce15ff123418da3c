-- ===== src/Papilio/IoBase/SetState.antt =====
-- `IOBase::setTapState` of papilio-prog/iobase.cpp as a whole.
use mathlib.Core.List.{append-nil, append_assoc}
use pi_industrial_robottools.Base.{
  ℕ, zero, suc, ◌+◌, ◌≤◌, ◌≡◌, ◌≢◌, refl, ap, sym, subst, ◌∙◌, inl, inr, arith, Bool, true, false,
  List, [], ◌∷◌, ◌++◌, leb, replicate, ◌==◌, Bool-cases,
}
use pi_industrial_robottools.Papilio.Tap.{TapState, test_logic_reset, unknown, same, route}
use pi_industrial_robottools.Papilio.Tap.Standard.{tap_run, tap_run-append}
use pi_industrial_robottools.Papilio.IoBase.{
  IoBase, Result, ok, ◌>>=◌, flush_tms, put_bit, make_room, chunk_bits, tap_test_logic_reset, leave,
  round, rounds, pre_bits, set_tap_state, route_fuel,
}
use pi_industrial_robottools.Papilio.IoBase.Buffer.{
  stream, IsValid, flush_tms-IsValid, flush_tms-stream, flush_tms-empty, flush_tms-state, with_bit,
  put_bit_ok, with_bit-IsValid, with_bit-stream, make_room-IsValid, make_room-lt, make_room-stream,
  make_room-state, skip, skip-IsValid, skip-stream,
}
use pi_industrial_robottools.Papilio.IoBase.Steps.{Adds, tap_test_logic_reset-Adds}
use pi_industrial_robottools.Papilio.IoBase.Walk.{rounds-Reaches, walks_known, walks_reset}

-- From an unknown state the first round resets the device, if the buffer has room for its bits.
round_unknown-Adds :
    (state : TapState) (io : IoBase)
    → IsValid io
    → io.tms_len + 5 ≤ chunk_bits
    → io.current_state ≡ unknown
    → Adds io (round state io) (replicate 6 true) test_logic_reset
unfolding round route
round_unknown-Adds state io v room e =
    subst
      (λ s.
        Adds io (leave s state io >>= λ io'. put_bit (route s state).tms (make_room io'))
          (replicate 6 true) test_logic_reset)
      (sym e) reset
  where
    r : Adds io (tap_test_logic_reset io) (replicate 5 true) test_logic_reset
    r = tap_test_logic_reset-Adds io v room

    reset :
        Adds io
          (tap_test_logic_reset io >>= λ io'. put_bit true (make_room io'))
          (replicate 6 true)
          test_logic_reset
    reset = record {
      after = with_bit true (make_room r.after);
      returns =
          ap (λ q. q >>= λ io'. put_bit true (make_room io')) r.returns
          ∙ put_bit_ok true (make_room r.after) (make_room-lt r.after);
      bits =
          with_bit-stream true (make_room r.after) (make_room-IsValid r.after r.valid)
          ∙ ap (λ bs. bs ++ true ∷ []) (make_room-stream r.after ∙ r.bits)
          ∙ append_assoc (stream io) (replicate 5 true) (true ∷ []);
      state = make_room-state r.after ∙ r.state;
      valid =
          with_bit-IsValid true (make_room r.after) (make_room-IsValid r.after r.valid)
            (make_room-lt r.after);
    }

-- The bits of a whole `setTapState` take a device at `at` to the goal: the state of the cable, or
-- any state if the cable knows none.
pub record Leads (io : IoBase) (r : Result IoBase) (state at : TapState) : Type 0 where
  pub path : List Bool
  pub adds : Adds io r path state
  pub leads : tap_run at path ≡ state

rounds_known :
    (state : TapState) (io : IoBase)
    → IsValid io
    → state ≢ unknown
    → io.current_state ≢ unknown
    → Leads io (rounds route_fuel state io) state io.current_state
rounds_known state io v k h =
    let r = rounds-Reaches 9 state io (walks_known io.current_state state h k) v h in
    record { path = r.path; adds = r.adds; leads = r.leads }

unknown_differs : (s state : TapState) → s ≡ unknown → state ≢ unknown → same s state ≡ false
unknown_differs s unknown e k = absurd (k refl)
unknown_differs s test_logic_reset e k = rw e refl
unknown_differs s _ e k = rw e refl

tap_run-six : (at : TapState) → at ≢ unknown → tap_run at (replicate 6 true) ≡ test_logic_reset
tap_run-six unknown h = absurd (h refl)
tap_run-six test_logic_reset h = refl
tap_run-six _ h = refl

rounds_unknown :
    (state at : TapState) (io : IoBase)
    → IsValid io
    → io.tms_len + 5 ≤ chunk_bits
    → state ≢ unknown
    → at ≢ unknown
    → io.current_state ≡ unknown
    → Leads io (rounds route_fuel state io) state at
unfolding rounds
rounds_unknown state at io v room k known e =
    let one = round_unknown-Adds state io v room e in
    let rest =
      rounds-Reaches 8 state one.after (rw one.state (walks_reset state k)) one.valid
        (rw one.state (λ q. cc)) in
    rw (unknown_differs io.current_state state e k) (record {
      path = replicate 6 true ++ rest.path;
      adds = record {
        after = rest.adds.after;
        returns = ap (λ q. q >>= rounds 9 state) one.returns ∙ rest.adds.returns;
        bits =
            rest.adds.bits
            ∙ ap (λ bs. bs ++ rest.path) one.bits
            ∙ append_assoc (stream io) (replicate 6 true) rest.path;
        state = rest.adds.state;
        valid = rest.adds.valid;
      };
      leads =
          tap_run-append at (replicate 6 true) rest.path
          ∙ ap (λ t. tap_run t rest.path) (tap_run-six at known ∙ sym one.state)
          ∙ rest.leads;
    })

pre_bits-Adds :
    (pre : ℕ) (io : IoBase)
    → IsValid io
    → pre ≤ chunk_bits
    → Adds io (ok (pre_bits pre io)) (replicate pre false) io.current_state
unfolding pre_bits
pre_bits-Adds zero io v h = record {
  after = io;
  returns = refl;
  bits = sym (append-nil (stream io));
  state = refl;
  valid = v;
}
pre_bits-Adds (suc n) io v h =
    let some_bits : (suc n == 0) ≡ false = ground arith in
    rw some_bits (elim (Bool-cases (leb chunk_bits (io.tms_len + suc n))) [
      | inl full ↦ rw full (record {
        after = skip (suc n) (flush_tms io);
        returns = refl;
        bits =
            skip-stream (suc n) (flush_tms io) (flush_tms-IsValid io)
            ∙ ap (λ bs. bs ++ replicate (suc n) false) (flush_tms-stream io);
        state = flush_tms-state io;
        valid =
            skip-IsValid (suc n) (flush_tms io) (flush_tms-IsValid io)
              (omega (arith, flush_tms-empty io));
      })
      | inr room ↦ rw room (record {
        after = skip (suc n) io;
        returns = refl;
        bits = skip-stream (suc n) io v;
        state = refl;
        valid = skip-IsValid (suc n) io v (ground arith);
      })
    ])

-- `setTapState` ends, stays within its buffer, and puts TMS bits that take the device from any
-- state `at` that the cable may assume to the state asked for; then come `pre` clocks with TMS low.
-- The cable may assume the state that it keeps, or, before the first reset, any state; then it needs
-- room for the five bits of the reset.
pub record SetsState (io : IoBase) (r : Result IoBase) (state at : TapState) (pre : ℕ)
    : Type 0 where
  pub path : List Bool
  pub adds : Adds io r (path ++ replicate pre false) state
  pub leads : tap_run at path ≡ state

set_of_Leads :
    (state at : TapState) (pre : ℕ) (io : IoBase)
    → pre ≤ chunk_bits
    → Leads io (rounds route_fuel state io) state at
    → SetsState io (set_tap_state state pre io) state at pre
unfolding set_tap_state
set_of_Leads state at pre io h l =
    let p = pre_bits-Adds pre l.adds.after l.adds.valid h in
    record {
      path = l.path;
      adds = record {
        after = p.after;
        returns = ap (λ q. q >>= λ io'. ok (pre_bits pre io')) l.adds.returns ∙ p.returns;
        bits =
            p.bits
            ∙ ap (λ bs. bs ++ replicate pre false) l.adds.bits
            ∙ append_assoc (stream io) l.path (replicate pre false);
        state = p.state ∙ l.adds.state;
        valid = p.valid;
      };
      leads = l.leads;
    }

pub set_tap_state_known :
    (state : TapState) (pre : ℕ) (io : IoBase)
    → IsValid io
    → pre ≤ chunk_bits
    → state ≢ unknown
    → io.current_state ≢ unknown
    → SetsState io (set_tap_state state pre io) state io.current_state pre
set_tap_state_known state pre io v h k known =
    set_of_Leads state io.current_state pre io h (rounds_known state io v k known)

pub set_tap_state_unknown :
    (state at : TapState) (pre : ℕ) (io : IoBase)
    → IsValid io
    → pre ≤ chunk_bits
    → state ≢ unknown
    → at ≢ unknown
    → io.tms_len + 5 ≤ chunk_bits
    → io.current_state ≡ unknown
    → SetsState io (set_tap_state state pre io) state at pre
set_tap_state_unknown state at pre io v h k known room e =
    set_of_Leads state at pre io h (rounds_unknown state at io v room k known e)
