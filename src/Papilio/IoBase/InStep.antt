-- ===== src/Papilio/IoBase/InStep.antt =====
-- The cable and the device stay in step: the state that `IOBase` of papilio-prog/iobase.cpp keeps is
-- the state of a TAP controller that is clocked with the TMS bits.
use mathlib.Core.List.{append-nil}
use pi_industrial_robottools.Base.{
  ℕ, suc, ◌+◌, ◌≤◌, ◌≡◌, ◌≢◌, refl, ap, ◌∙◌, ◌⊎◌, inl, inr, Bool, true, false, List, [], ◌∷◌, ◌++◌,
  Option, replicate,
}
use pi_industrial_robottools.Papilio.Tap.{TapState, test_logic_reset, shift_dr, shift_ir, unknown}
use pi_industrial_robottools.Papilio.Tap.Standard.{
  tap_next, tap_run, tap_run-append, tap_run-low, IsStable,
}
use pi_industrial_robottools.Papilio.IoBase.{
  IoBase, Result, ok, make_room, chunk_bits, shift_tdi_tdo, shift, set_tap_state,
}
use pi_industrial_robottools.Papilio.IoBase.Buffer.{stream, IsValid}
use pi_industrial_robottools.Papilio.IoBase.Steps.{Adds, shift_bits, shift_tdi_tdo-Adds, shift-Adds}
use pi_industrial_robottools.Papilio.IoBase.SetState.{set_tap_state_known, set_tap_state_unknown}

-- A device that was in the state `at` when the cable started is in the state that the cable keeps.
abbrev pub InStep : TapState → IoBase → Type 0
InStep at io = io.current_state ≢ unknown → tap_run at (stream io) ≡ io.current_state

-- A call that returns, and leaves the two in step, in the state `s`.
pub record Keeps (at : TapState) (r : Result IoBase) (s : TapState) : Type 0 where
  pub after : IoBase
  pub returns : r ≡ ok after
  pub valid : IsValid after
  pub state : after.current_state ≡ s
  pub in_step : tap_run at (stream after) ≡ s

pub Keeps-of_Adds :
    {io : IoBase} {r : Result IoBase} {bs : List Bool} {s : TapState} (at : TapState)
    → Adds io r bs s
    → tap_run (tap_run at (stream io)) bs ≡ s
    → Keeps at r s
Keeps-of_Adds {io} {r} {bs} at a h = record {
  after = a.after;
  returns = a.returns;
  valid = a.valid;
  state = a.state;
  in_step = ap (tap_run at) a.bits ∙ tap_run-append at (stream io) bs ∙ h;
}

known_or : (s : TapState) → (s ≡ unknown) ⊎ (s ≢ unknown)
known_or unknown = inl refl
known_or test_logic_reset = inr (λ e. cc)
known_or _ = inr (λ e. cc)

tap_next_known : (s : TapState) (b : Bool) → s ≢ unknown → tap_next s b ≢ unknown
tap_next_known unknown b h = absurd (h refl)
tap_next_known test_logic_reset true h = λ e. cc
tap_next_known _ true h = λ e. cc
tap_next_known _ false h = λ e. cc

pub tap_run_known : (bs : List Bool) (s : TapState) → s ≢ unknown → tap_run s bs ≢ unknown
tap_run_known [] s h = h
tap_run_known (b ∷ bs) s h = tap_run_known bs (tap_next s b) (tap_next_known s b h)

path_then_low :
    (s state : TapState) (path : List Bool) (pre : ℕ)
    → (pre ≡ 0) ⊎ IsStable state
    → tap_run s path ≡ state
    → tap_run s (path ++ replicate pre false) ≡ state
path_then_low s state path pre (inl z) h = rw (z, append-nil path) h
path_then_low s state path pre (inr stable) h =
    tap_run-append s path (replicate pre false)
    ∙ ap (λ t. tap_run t (replicate pre false)) h
    ∙ tap_run-low pre state stable

-- `setTapState`, for a known state, returns, and takes a TAP controller that is clocked with the
-- TMS bits to the state asked for, from whatever known state it was in, provided the cable's
-- state was unknown or that of the device; the clocks for the bits in front of it leave it there,
-- if there are none or if the state is one that TMS low does not leave. The buffer is valid
-- before, has room for five bits if the cable's state is unknown, and the bits in front fit one
-- buffer.
pub set_tap_state-Keeps :
    (at state : TapState) (pre : ℕ) (io : IoBase)
    → at ≢ unknown
    → state ≢ unknown
    → IsValid io
    → InStep at io
    → (io.current_state ≡ unknown → io.tms_len + 5 ≤ chunk_bits)
    → pre ≤ chunk_bits
    → (pre ≡ 0) ⊎ IsStable state
    → Keeps at (set_tap_state state pre io) state
set_tap_state-Keeps at state pre io known k v step room h stable =
    elim (known_or io.current_state) [
      | inl e ↦
          let here = tap_run at (stream io) in
          let s =
            set_tap_state_unknown state here pre io v h k (tap_run_known (stream io) at known)
              (room e) e in
          Keeps-of_Adds at s.adds (path_then_low here state s.path pre stable s.leads)
      | inr e ↦
          let s = set_tap_state_known state pre io v h k e in
          Keeps-of_Adds at s.adds (
            ap (λ t. tap_run t (s.path ++ replicate pre false)) (step e)
            ∙ path_then_low io.current_state state s.path pre stable s.leads)
    ]

-- The states in which data is shifted.
abbrev pub IsShift : TapState → Type 0
IsShift s = (s ≡ shift_dr) ⊎ (s ≡ shift_ir)

shift_bits-run :
    (n : ℕ) (last : Bool) (s : TapState)
    → IsShift s
    → tap_run s (shift_bits n last) ≡ tap_next s last
shift_bits-run n last s (inl e) = rw e (
    tap_run-append shift_dr (replicate n false) (last ∷ [])
    ∙ ap (λ t. tap_next t last) (tap_run-low n shift_dr refl))
shift_bits-run n last s (inr e) = rw e (
    tap_run-append shift_ir (replicate n false) (last ∷ [])
    ∙ ap (λ t. tap_next t last) (tap_run-low n shift_ir refl))

shift_known : (s : TapState) → IsShift s → s ≢ unknown
shift_known s (inl e) u = cc
shift_known s (inr e) u = cc

-- A shift of one bit of data or more, from a shift state in which the cable and the device are in
-- step, returns and moves the two on together: they stay in that state, or go to its exit state
-- if the last bit has TMS high.
pub shift_tdi_tdo-Keeps :
    (at : TapState) (tdi : Option (List ℕ)) (reads : Bool) (n : ℕ) (last : Bool) (io : IoBase)
    → IsShift io.current_state
    → InStep at io
    → Keeps at (shift_tdi_tdo tdi reads (suc n) last io) (tap_next io.current_state last)
shift_tdi_tdo-Keeps at tdi reads n last io sh step =
    Keeps-of_Adds at (shift_tdi_tdo-Adds tdi reads n last io sh) (
      ap (λ t. tap_run t (shift_bits n last)) (step (shift_known io.current_state sh))
      ∙ shift_bits-run n last io.current_state sh)

-- A shift of one bit or more by `shift`, from a shift state in which the cable and the device are
-- in step, with a valid buffer that has room for the bits once it was flushed if full, returns
-- and moves the two on together: they stay in that state, or go to its exit state if the last bit
-- has TMS high.
pub shift-Keeps :
    (at : TapState) (tdi : Bool) (n : ℕ) (last : Bool) (io : IoBase)
    → IsValid io
    → (make_room io).tms_len + suc n ≤ chunk_bits
    → IsShift io.current_state
    → InStep at io
    → Keeps at (shift tdi (suc n) last io) (tap_next io.current_state last)
shift-Keeps at tdi n last io v room sh step =
    Keeps-of_Adds at (shift-Adds tdi n last io v room sh) (
      ap (λ t. tap_run t (shift_bits n last)) (step (shift_known io.current_state sh))
      ∙ shift_bits-run n last io.current_state sh)
