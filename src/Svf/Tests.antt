-- ===== src/Svf/Tests.antt =====
-- Runs of the loader's model on concrete inputs: svfload.
use pi_industrial_robottools.Base.{
  ◌≡◌, refl, arith, inl, inr, [], ◌∷◌, ◌++◌, Option, some, none, if◌then◌else◌, Bool-cases,
}
use pi_industrial_robottools.Base.Int.{ℤ, pos, negsuc}
use pi_industrial_robottools.Svf.Gpio.{
  Call, Kernel, Req, negative, default_wiring, svfctl_udelay, svfctl_pulse, ◌>>◌, pin_set, toggle,
  toggle_all, svfctl_init, svfctl_fini, pin_reconf, get_line, get_tdo,
}
use pi_industrial_robottools.Svf.Wave.{IsDistinct, handles, lines}
use pi_industrial_robottools.Svf.Delay.{Delayed, svfctl_udelay-Delayed}
use pi_industrial_robottools.Svf.Player.{
  Args, cb_analyze_setup, cb_analyze_pulse_tck, cb_analyze_udelay, cb_play_setup,
  cb_verbose_play_pulse_tck, cb_play_pulse_tck, show_progress, cb_play_udelay, delay_loop,
  cb_get_byte, cb_play_shutdown,
}
use pi_industrial_robottools.Svf.Program.{
  Mode, svf, scan, Callback, Script, finish, call, run, Machine, main_analyze, main_play, play_host,
}
use pi_industrial_robottools.Svf.Main.{empty_req, start}
use pi_industrial_robottools.Svf.Library.{Fails, IsChecked, IsBody, IsPlayer, begins}
use pi_industrial_robottools.Svf.Passes.{main_play-counts}
use pi_industrial_robottools.Svf.Failure.{delay_never_ends}
use pi_industrial_robottools.Svf.Working.{IsWorking}
use pi_industrial_robottools.Svf.Device.{run-edges, wanted_all, asked, tdi_of}

-- A kernel without errors, in which a line's handle is the number of its pin, and TDO is high.
abbrev good : Kernel
good log (Call.get_linehandle chip_fd pin is_output) = record { rc = pos 0; out = pin }
good log _ = record { rc = pos 0; out = 1 }

good-IsWorking : IsWorking good
good-IsWorking = record { sets = λ log fd v. refl; gets = λ log fd. refl }

-- One that refuses every call.
abbrev broken : Kernel
broken log c = record { rc = negsuc 0; out = 0 }

abbrev opened : Req
opened = record empty_req {
  tms_fd = 23;
  tdi_fd = 22;
  tdo_fd = 17;
  tck_fd = 24;
  tck_cnt = 2;
  tms_val = pos 1;
}

opened-IsDistinct : IsDistinct (handles opened)
opened-IsDistinct = record {
  tms_ne_tdi = omega arith;
  tms_ne_tck = omega arith;
  tdi_ne_tck = omega arith;
}

svfctl_udelay-Delayed_example :
    Delayed
      (record { req = opened; log = [] })
      (svfctl_udelay good (record { req = opened; log = [] }))
svfctl_udelay-Delayed_example =
    svfctl_udelay-Delayed good (record { req = opened; log = [] }) opened-IsDistinct

abbrev ready : Args
ready = record (start (97 ∷ [])) { kreq = opened }

delay_never_ends_example : delay_loop broken 1_000 (pos 0) 5 ready ≡ none
delay_never_ends_example =
    delay_never_ends broken 1_000 (pos 0) 5 ready (λ log v. refl) (omega arith)

-- A library that stops at an error, and one that plays a pulse and a delay.
abbrev checked : Script → ℤ → Script
checked s r = if negative r then finish (negsuc 0) else s

abbrev shut : Script
shut = call Callback.shutdown (checked (finish (pos 0)))

abbrev body : Script
body = call (Callback.pulse_tck (pos 1) (pos 0) (pos 1) (pos 0) (pos 0)) (
    checked
      (call (Callback.udelay (pos 0) (pos 0) (pos 3)) (λ r. call Callback.getbyte (λ b. shut))))

abbrev library : Mode → Script
library svf = call Callback.setup (checked body)
library scan = finish (pos 0)

checked-IsChecked : (s : Script) → IsChecked (checked s)
unfolding Fails
checked-IsChecked s = record {
  negative_fails = λ r h. rw h refl;
  sign_only = λ r q h g. rw (h, g) refl;
}

checked-IsBody : (s : Script) → IsBody s → (r : ℤ) → IsBody (checked s r)
unfolding IsBody
checked-IsBody s h r = elim (Bool-cases (negative r)) [ inl bad ↦ rw bad tt | inr good ↦ rw good h ]

shut-IsBody : IsBody shut
unfolding IsBody
shut-IsBody = (checked-IsChecked (finish (pos 0)), checked-IsBody (finish (pos 0)) tt)

body-IsBody : IsBody body
unfolding IsBody
body-IsBody = (
  inl (checked-IsChecked _),
  checked-IsBody
      (call (Callback.udelay (pos 0) (pos 0) (pos 3)) (λ r. call Callback.getbyte (λ b. shut)))
      (refl, λ r. (tt, λ b. shut-IsBody)),
)

library-IsPlayer : IsPlayer (library svf)
library-IsPlayer = begins (checked body) (checked-IsChecked body) (checked-IsBody body body-IsBody)

abbrev pi : Machine
pi = record {
  libxsvf_play = library;
  char = λ b. pos b;
  kernel = good;
  wiring = default_wiring;
  fuel = 1;
}

abbrev result : Option (ℤ × Args) → Args
result none = start []
result (some (rc, args)) = args

abbrev played : Args
played = result (main_play pi (start (97 ∷ [])))

plays : main_play pi (start (97 ∷ [])) ≡ some (pos 0, played)
unfolding main_play main_analyze run cb_analyze_setup cb_analyze_pulse_tck cb_analyze_udelay
    cb_play_setup svfctl_init get_line ◌>>◌ pin_set cb_verbose_play_pulse_tck cb_play_pulse_tck
    svfctl_pulse get_tdo show_progress cb_play_udelay delay_loop svfctl_udelay toggle toggle_all
    cb_get_byte cb_play_shutdown svfctl_fini pin_reconf
plays = refl

main_play-counts_example : played.tck_count ≡ played.tck_total
main_play-counts_example =
    main_play-counts pi (start (97 ∷ [])) played (pos 0) library-IsPlayer refl plays refl

-- An empty file, which the analysis refuses.
abbrev refused : Args
refused = result (main_play pi (start []))

abbrev counted : Args
counted = result (main_analyze pi (start []))

refuses_empty : main_analyze pi (start []) ≡ some (negsuc 0, counted)
unfolding main_analyze run cb_analyze_setup
refuses_empty = refl

plays_empty : main_play pi (start []) ≡ some (negsuc 0, refused)
unfolding main_play main_analyze run cb_analyze_setup
plays_empty = refl

abbrev driven : Args
driven = result (run pi.char (play_host good default_wiring 1) body ready)

drives : run pi.char (play_host good default_wiring 1) body ready ≡ some (pos 0, driven)
unfolding run ◌>>◌ pin_set cb_verbose_play_pulse_tck cb_play_pulse_tck svfctl_pulse get_tdo
    show_progress cb_play_udelay delay_loop svfctl_udelay toggle toggle_all cb_get_byte
    cb_play_shutdown svfctl_fini pin_reconf
drives = refl

run-edges_example :
    (lines (handles ready.kreq) driven.log).edges
    ≡ (lines (handles ready.kreq) ready.log).edges
      ++ wanted_all (asked pi.char (play_host good default_wiring 1) body ready) (tdi_of ready)
run-edges_example =
    run-edges good good-IsWorking pi.char default_wiring 1 body ready driven (pos 0) body-IsBody
      opened-IsDistinct drives
