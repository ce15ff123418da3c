-- ===== src/Papilio/IoBase/Walk.antt =====
-- The loop of `setTapState`: it ends, and its TMS bits take the device to the goal.
use mathlib.Core.List.{append-nil, append_assoc}
use pi_industrial_robottools.Base.{
  ℕ, zero, suc, ◌≡◌, ◌≢◌, refl, ap, sym, ◌∙◌, inl, inr, arith, Bool, true, false, List, [], ◌∷◌,
  ◌++◌, if◌then◌else◌, Bool-cases, ◌&&◌,
}
use pi_industrial_robottools.Papilio.Tap.{
  TapState, test_logic_reset, run_test_idle, select_dr_scan, capture_dr, shift_dr, exit1_dr,
  pause_dr, exit2_dr, update_dr, select_ir_scan, capture_ir, shift_ir, exit1_ir, pause_ir, exit2_ir,
  update_ir, unknown, same, route,
}
use pi_industrial_robottools.Papilio.Tap.Standard.{tap_next, tap_run}
use pi_industrial_robottools.Papilio.Tap.Route.{route-tap_next, same_iff}
use pi_industrial_robottools.Papilio.IoBase.{
  IoBase, Result, ok, ◌>>=◌, make_room, leave, round, rounds,
}
use pi_industrial_robottools.Papilio.IoBase.Buffer.{
  stream, IsValid, with_bit, put_bit_ok, with_bit-IsValid, with_bit-stream, make_room-IsValid,
  make_room-lt, make_room-stream, make_room-state,
}
use pi_industrial_robottools.Papilio.IoBase.Steps.{Adds}

leave_known :
    (s state : TapState) (io : IoBase)
    → s ≢ unknown
    → leave s state io ≡ ok (record io { current_state = (route s state).next })
leave_known unknown state io h = absurd (h refl)
leave_known test_logic_reset state io h = refl
leave_known _ state io h = refl

-- A round from a known state clocks one bit.
round-Adds :
    (state : TapState) (io : IoBase)
    → IsValid io
    → io.current_state ≢ unknown
    → Adds io
        (round state io)
        ((route io.current_state state).tms ∷ [])
        (route io.current_state state).next
unfolding round
round-Adds state io v h =
    let s = io.current_state in
    let io1 : IoBase = record io { current_state = (route s state).next } in
    let v1 : IsValid io1 = record { fits = v.fits; clean = v.clean } in
    let b = (route s state).tms in
    record {
      after = with_bit b (make_room io1);
      returns = rw (leave_known s state io h) (put_bit_ok b (make_room io1) (make_room-lt io1));
      bits =
          with_bit-stream b (make_room io1) (make_room-IsValid io1 v1)
          ∙ ap (λ bs. bs ++ b ∷ []) (make_room-stream io1);
      state = make_room-state io1;
      valid = with_bit-IsValid b (make_room io1) (make_room-IsValid io1 v1) (make_room-lt io1);
    }

-- Whether the route from `s` ends in `state` within `fuel` rounds.
unfoldable pub walks : ℕ → TapState → TapState → Bool
walks zero s state = same s state
walks (suc fuel) s state =
    let more = walks fuel (route s state).next state in if same s state then true else more

-- A test of all states of the standard.
all_states : (TapState → Bool) → Bool
all_states p =
    p test_logic_reset
    && p run_test_idle
    && p select_dr_scan
    && p capture_dr
    && p shift_dr
    && p exit1_dr
    && p pause_dr
    && p exit2_dr
    && p update_dr
    && p select_ir_scan
    && p capture_ir
    && p shift_ir
    && p exit1_ir
    && p pause_ir
    && p exit2_ir
    && p update_ir

all_states_sound :
    (p : TapState → Bool) (s : TapState) → s ≢ unknown → all_states p ≡ true → p s ≡ true
unfolding all_states
all_states_sound p unknown h e = absurd (h refl)
all_states_sound p test_logic_reset h e = ground arith
all_states_sound p _ h e = ground arith

walks_table : all_states (λ s. all_states (λ t. walks 9 s t)) ≡ true
unfolding all_states walks route
walks_table = refl

reset_table : all_states (λ t. walks 8 test_logic_reset t) ≡ true
unfolding all_states walks route
reset_table = refl

-- From the reset state eight rounds are enough.
pub walks_reset : (state : TapState) → state ≢ unknown → walks 8 test_logic_reset state ≡ true
walks_reset state k = all_states_sound (λ t. walks 8 test_logic_reset t) state k reset_table

-- Every route ends within nine rounds.
pub walks_known : (s state : TapState) → s ≢ unknown → state ≢ unknown → walks 9 s state ≡ true
walks_known s state h k =
    all_states_sound (λ t. walks 9 s t) state k
      (all_states_sound (λ s. all_states (λ t. walks 9 s t)) s h walks_table)

route_known : (s state : TapState) → (route s state).next ≢ unknown
unfolding route
route_known test_logic_reset state = ground arith
route_known _ state = ground arith

same_refl : (s : TapState) → same s s ≡ true
same_refl test_logic_reset = refl
same_refl _ = refl

-- The bits of the rounds take a device from the state of the cable to the goal.
pub record Reaches (io : IoBase) (r : Result IoBase) (state : TapState) : Type 0 where
  pub path : List Bool
  pub adds : Adds io r path state
  pub leads : tap_run io.current_state path ≡ state

rounds_there :
    (fuel : ℕ) (state : TapState) (io : IoBase)
    → same io.current_state state ≡ true
    → IsValid io
    → Reaches io (rounds (suc fuel) state io) state
unfolding rounds
rounds_there fuel state io there v = rw there (record {
  path = [];
  adds = record {
    after = io;
    returns = refl;
    bits = sym (append-nil (stream io));
    state = same_iff io.current_state state there;
    valid = v;
  };
  leads = same_iff io.current_state state there;
})

walks_away :
    (f : ℕ) (s state : TapState)
    → same s state ≡ false
    → walks (suc f) s state ≡ true
    → walks f (route s state).next state ≡ true
unfolding walks
walks_away f s state away w = ground arith

-- One round, and the rounds after it.
then_Reaches :
    {io : IoBase} {r : Result IoBase} {s state : TapState} (k : IoBase → Result IoBase) (b : Bool)
    → (one : Adds io r (b ∷ []) s) → tap_next io.current_state b ≡ s
    → Reaches one.after (k one.after) state
    → Reaches io (r >>= k) state
then_Reaches {io} {r} {s} {state} k b one clocked rest = record {
  path = b ∷ rest.path;
  adds = record {
    after = rest.adds.after;
    returns = ap (λ q. q >>= k) one.returns ∙ rest.adds.returns;
    bits =
        rest.adds.bits
        ∙ ap (λ bs. bs ++ rest.path) one.bits
        ∙ append_assoc (stream io) (b ∷ []) rest.path;
    state = rest.adds.state;
    valid = rest.adds.valid;
  };
  leads = ap (λ t. tap_run t rest.path) (clocked ∙ sym one.state) ∙ rest.leads;
}

pub rounds-Reaches :
    (fuel : ℕ) (state : TapState) (io : IoBase)
    → walks fuel io.current_state state ≡ true
    → IsValid io
    → io.current_state ≢ unknown
    → Reaches io (rounds (suc fuel) state io) state
unfolding rounds
rounds-Reaches zero state io w v h = rounds_there zero state io (unfold walks in w) v
rounds-Reaches (suc f) state io w v h = elim (Bool-cases (same io.current_state state)) [
  | inl there ↦ rounds_there (suc f) state io there v
  | inr away ↦
      let s = io.current_state in
      let one = round-Adds state io v h in
      rw away (
        then_Reaches (rounds (suc f) state) (route s state).tms one (route-tap_next s state h) (
          rounds-Reaches f state one.after (rw one.state (walks_away f s state away w)) one.valid
            (rw one.state (route_known s state))))
]
