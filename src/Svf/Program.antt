-- ===== src/Svf/Program.antt =====
-- svfload/svfload.c: `main_analyze`, `main_idcode`, `main_play` and `main`. libxsvf is a library: a
-- `Script` is what it does with a host, callback by callback, and `libxsvf_play` is the script of
-- each mode. `sync`, `pulse_sck`, `set_trst` and the other callbacks that the host leaves out are
-- not called, and `realloc` gives the library its memory.
use pi_industrial_robottools.Base.{ℕ, Option, none, some, if◌then◌else◌}
use pi_industrial_robottools.Base.Int.{ℤ, pos}
use pi_industrial_robottools.Svf.Gpio.{Kernel, Wiring, failed}
use pi_industrial_robottools.Svf.Player.{
  Args, cb_report_device, cb_get_byte, cb_analyze_udelay, cb_analyze_pulse_tck, cb_analyze_setup,
  cb_play_udelay, cb_play_pulse_tck, cb_verbose_play_pulse_tck, cb_play_setup, cb_play_shutdown,
}

pub data Mode : Type 0 where
  svf : Mode
  scan : Mode

pub data Callback : Type 0 where
  setup : Callback
  shutdown : Callback
  udelay : ℤ → ℤ → ℤ → Callback
  pulse_tck : ℤ → ℤ → ℤ → ℤ → ℤ → Callback
  getbyte : Callback
  report_error : Callback
  set_frequency : ℤ → Callback
  report_device : ℕ → Callback

pub data Script : Type 0 where
  finish : ℤ → Script
  call : Callback → (ℤ → Script) → Script

-- The callbacks of `struct libxsvf_host` that the modes of the player set differently. One that
-- does not return is `none`.
pub record Host : Type 0 where
  pub setup : Args → ℤ × Args
  pub shutdown : Args → ℤ × Args
  pub udelay : ℤ → ℤ → ℤ → Args → Option Args
  pub pulse_tck : ℤ → ℤ → ℤ → Args → ℤ × Args

-- What a callback that returns nothing gives the script.
abbrev pub void : Option Args → Option (ℤ × Args)
void none = none
void (some args) = some (pos 0, args)

abbrev pub dispatch : (ℕ → ℤ) → Host → Callback → Args → Option (ℤ × Args)
dispatch char h Callback.setup args = some (h.setup args)
dispatch char h Callback.shutdown args = some (h.shutdown args)
dispatch char h (Callback.udelay usecs tms num_tck) args = void (h.udelay usecs tms num_tck args)
dispatch char h (Callback.pulse_tck tms tdi tdo rmask sync) args =
    some (h.pulse_tck tms tdi tdo args)
dispatch char h Callback.getbyte args = some (cb_get_byte char args)
dispatch char h Callback.report_error args = some (pos 0, args)
dispatch char h (Callback.set_frequency freq) args = some (pos 0, args)
dispatch char h (Callback.report_device idcode) args = some (pos 0, cb_report_device idcode args)

-- The script, run with a host: what it returns.
unfoldable pub run : (ℕ → ℤ) → Host → Script → Args → Option (ℤ × Args)
run char h (finish rc) args = some (rc, args)
run char h (call c k) args = elim (dispatch char h c args) [
  | none ↦ none
  | some (r, next) ↦ run char h (k r) next
]

abbrev pub analyze_host : Host
analyze_host = record {
  setup = cb_analyze_setup;
  shutdown = λ args. (pos 0, args);
  udelay = λ usecs tms num_tck args. some (cb_analyze_udelay usecs tms num_tck args);
  pulse_tck = cb_analyze_pulse_tck;
}

abbrev pub idcode_host : Kernel → Wiring → ℕ → Host
idcode_host kernel wiring fuel = record {
  setup = cb_play_setup kernel wiring;
  shutdown = cb_play_shutdown kernel;
  udelay = cb_play_udelay kernel fuel;
  pulse_tck = cb_play_pulse_tck kernel;
}

abbrev pub play_host : Kernel → Wiring → ℕ → Host
play_host kernel wiring fuel = record (idcode_host kernel wiring fuel) {
  pulse_tck = cb_verbose_play_pulse_tck kernel;
}

-- What the program runs on: libxsvf, a `char`, the kernel, the pins, and the rounds that a delay
-- is given.
pub record Machine : Type 0 where
  pub libxsvf_play : Mode → Script
  pub char : ℕ → ℤ
  pub kernel : Kernel
  pub wiring : Wiring
  pub fuel : ℕ

module _ (m : Machine) where
  unfoldable pub main_analyze : Args → Option (ℤ × Args)
  main_analyze = run m.char analyze_host (m.libxsvf_play svf)

  unfoldable pub main_idcode : Args → Option (ℤ × Args)
  main_idcode = run m.char (idcode_host m.kernel m.wiring m.fuel) (m.libxsvf_play scan)

  unfoldable pub main_play : Args → Option (ℤ × Args)
  main_play args = elim (main_analyze args) [
    | none ↦ none
    | some (rc, counted) ↦
        let played = run m.char (play_host m.kernel m.wiring m.fuel) (m.libxsvf_play svf) counted in
        if failed rc then some (rc, counted) else played
  ]
