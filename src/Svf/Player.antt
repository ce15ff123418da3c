-- ===== src/Svf/Player.antt =====
-- svfload/svfload.c: `struct ksvfplay_args` and the callbacks that libxsvf, which is a library,
-- makes of it. `main` sets `svf_data` and `svf_data_len` together, so that the list of the bytes
-- stands for both, and an empty one for no file. `char` says what a `char` of the platform is
-- worth, which may be signed. `printed` keeps the lines of the progress indicator, the latest first.
use pi_industrial_robottools.Base.{
  ℕ, zero, suc, ◌+◌, ◌-◌, ◌/◌, ◌%◌, ◌^◌, Bool, ◌||◌, ◌&&◌, List, ◌∷◌, Option, none, some, ltb, leb,
  ◌==◌, if◌then◌else◌, length, get_or,
}
use Prim.Native.Nat.{min}
use pi_industrial_robottools.Base.Int.{ℤ, pos, negsuc, pos_part, neg_part}
use pi_industrial_robottools.Svf.Gpio.{
  Call, Log, Kernel, Wiring, Req, Io, Out, negative, perform, svfctl_init, svfctl_fini,
  svfctl_udelay, svfctl_pulse,
}

pub record Args : Type 0 where
  pub svf_data : List ℕ
  pub svf_data_ptr : ℕ
  pub idcode : ℕ
  pub tck_total : ℕ
  pub tck_count : ℕ
  pub tck_step : ℕ
  pub tck_compare : ℕ
  pub kreq : Req
  pub log : Log
  pub printed : List (ℕ × ℕ)

abbrev pub u64 : ℕ → ℕ
u64 n = n % 2 ^ 64

-- A `long` as a `uint64_t`.
abbrev pub bits64 : ℤ → ℕ
bits64 (pos n) = u64 n
bits64 (negsuc n) = 2 ^ 64 - 1 - u64 n

abbrev pub io_of : Args → Io
io_of args = record { req = args.kreq; log = args.log }

abbrev pub with_io : Args → Io → Args
with_io args io = record args { kreq = io.req; log = io.log }

unfoldable pub show_progress : Args → Args
show_progress args = if ltb args.tck_count args.tck_compare then args else record args {
  tck_compare = u64 (args.tck_compare + args.tck_step);
  printed = (args.tck_total, args.tck_count) ∷ args.printed;
}

unfoldable pub cb_report_device : ℕ → Args → Args
cb_report_device idcode args = record args { idcode = idcode % 2 ^ 32 }

unfoldable pub cb_get_byte : (ℕ → ℤ) → Args → ℤ × Args
cb_get_byte char args = if leb (length args.svf_data) args.svf_data_ptr then (negsuc 0, args) else (
  char (get_or args.svf_data args.svf_data_ptr 0),
  record args { svf_data_ptr = args.svf_data_ptr + 1 },
)

unfoldable pub cb_analyze_udelay : ℤ → ℤ → ℤ → Args → Args
cb_analyze_udelay usecs tms num_tck args = record args {
  tck_total = u64 (args.tck_total + bits64 num_tck);
}

unfoldable pub cb_analyze_pulse_tck : ℤ → ℤ → ℤ → Args → ℤ × Args
cb_analyze_pulse_tck tms tdi tdo args =
    (if negative tdo then pos 0 else tdo, record args { tck_total = u64 (args.tck_total + 1) })

unfoldable pub cb_analyze_setup : Args → ℤ × Args
cb_analyze_setup args =
    (if leb (length args.svf_data) 0 then negsuc 0 else pos 0, record args { svf_data_ptr = 0 })

-- `a == b` of integers.
abbrev pub equal_ℤ : ℤ → ℤ → Bool
equal_ℤ a b = pos_part a == pos_part b && neg_part a == neg_part b

module _ (kernel : Kernel) where
  -- A round of the loop of `cb_play_udelay`, whose call may fail: what it asks for, and what is
  -- left after it.
  abbrev pub ask_delay : ℤ → ℕ → Args → Out
  ask_delay tms remaining args = svfctl_udelay kernel record {
    req = record args.kreq { tck_cnt = min remaining 100_000; tms_val = tms };
    log = args.log;
  }

  abbrev pub delay_round : ℤ → ℕ → Args → Args
  delay_round tms remaining args =
      let r = ask_delay tms remaining args in
      show_progress
        (record (with_io args r.io) { tck_count = u64 (args.tck_count + r.io.req.tck_cnt) })

  -- The loop, which runs while `remaining` is above 0: `none` when it has not ended after so many
  -- rounds.
  unfoldable pub delay_loop : ℕ → ℤ → ℕ → Args → Option Args
  delay_loop zero tms remaining args = if leb remaining 0 then some args else none
  delay_loop (suc fuel) tms remaining args =
      let r = ask_delay tms remaining args in
      let rest =
        delay_loop fuel tms (remaining - r.io.req.tck_cnt) (delay_round tms remaining args) in
      if leb remaining 0 then some args else rest

  unfoldable pub cb_play_udelay : ℕ → ℤ → ℤ → ℤ → Args → Option Args
  cb_play_udelay fuel usecs tms num_tck args =
      let slept = record args { log = perform kernel (Call.usleep usecs) args.log } in
      delay_loop fuel tms (pos_part num_tck) (if ltb 0 (pos_part usecs) then slept else args)

  abbrev pub ask_pulse : ℤ → ℤ → ℤ → Args → Out
  ask_pulse tms tdi tdo args = svfctl_pulse kernel record {
    req = record args.kreq { tdi_val = tdi; tdo_val = tdo; tms_val = tms };
    log = args.log;
  }

  unfoldable pub cb_play_pulse_tck : ℤ → ℤ → ℤ → Args → ℤ × Args
  cb_play_pulse_tck tms tdi tdo args =
      let r = ask_pulse tms tdi tdo args in
      let line_tdo = r.io.req.tdo_val in
      (
        if negative tdo || equal_ℤ line_tdo tdo then line_tdo else negsuc 0,
        record (with_io args r.io) { tck_count = u64 (args.tck_count + 1) },
      )

  unfoldable pub cb_verbose_play_pulse_tck : ℤ → ℤ → ℤ → Args → ℤ × Args
  cb_verbose_play_pulse_tck tms tdi tdo args =
      let (rc, played) = cb_play_pulse_tck tms tdi tdo args in (rc, show_progress played)

  unfoldable pub cb_play_setup : Wiring → Args → ℤ × Args
  cb_play_setup wiring args =
      let r = svfctl_init kernel wiring (io_of args) in
      (
        r.res,
        record (with_io args r.io) {
          tck_count = 0;
          tck_compare = 0;
          tck_step = args.tck_total / 100;
          svf_data_ptr = 0;
        },
      )

  unfoldable pub cb_play_shutdown : Args → ℤ × Args
  cb_play_shutdown args = let r = svfctl_fini kernel (io_of args) in (r.res, with_io args r.io)
