-- ===== src/Svf/Gpio.antt =====
-- svfload/svfload.c: `struct ksvf_req`, `pin_set`, `pin_get`, `pin_reconf` and `svfctl`. The kernel
-- is not part of the repository: `Kernel` says what it answers to a call after the calls made
-- before it, which the log keeps, the latest first.
use pi_industrial_robottools.Base.{
  ℕ, zero, suc, ◌-◌, ◌%◌, Bool, true, false, List, ◌∷◌, ltb, leb, if◌then◌else◌,
}
use pi_industrial_robottools.Base.Int.{ℤ, pos, negsuc, abs, neg_part}

pub data Call : Type 0 where
  open_chip : ℕ → Call
  get_linehandle : ℤ → ℕ → Bool → Call
  set_line_values : ℕ → ℕ → Call
  get_line_values : ℕ → Call
  set_config : ℕ → Bool → Call
  close : ℤ → Call
  usleep : ℤ → Call

pub record Event : Type 0 where
  pub call : Call
  pub rc : ℤ

-- What a call returns, and what the kernel writes through its pointer: `gr.fd` or `values[0]`.
pub record Answer : Type 0 where
  pub rc : ℤ
  pub out : ℕ

abbrev pub Log : Type 0
Log = List Event

abbrev pub Kernel : Type 0
Kernel = Log → Call → Answer

-- The pins, and the number in the name of the chip.
pub record Wiring : Type 0 where
  pub tms_pin : ℕ
  pub tck_pin : ℕ
  pub tdi_pin : ℕ
  pub tdo_pin : ℕ
  pub gpiochip : ℕ

-- The pins for a Raspberry Pi and for any other board but the second.
abbrev pub default_wiring : Wiring
default_wiring = record { tms_pin = 23; tck_pin = 24; tdi_pin = 22; tdo_pin = 17; gpiochip = 0 }

abbrev pub aml_s905x_cc_wiring : Wiring
aml_s905x_cc_wiring = record {
  tms_pin = 97;
  tck_pin = 84;
  tdi_pin = 85;
  tdo_pin = 86;
  gpiochip = 1;
}

-- `struct ksvf_req`, without its padding.
pub record Req : Type 0 where
  pub tms_val : ℤ
  pub tdi_val : ℤ
  pub tdo_val : ℤ
  pub tck_cnt : ℕ
  pub tms_fd : ℕ
  pub tdi_fd : ℕ
  pub tdo_fd : ℕ
  pub tck_fd : ℕ

pub record Io : Type 0 where
  pub req : Req
  pub log : Log

pub record Out : Type 0 where
  pub res : ℤ
  pub io : Io

-- `if(res)`, and `if(res < 0)`.
abbrev pub failed : ℤ → Bool
failed res = ltb 0 (abs res)

abbrev pub negative : ℤ → Bool
negative res = ltb 0 (neg_part res)

-- `values` is an array of `__u8`.
abbrev pub line_value : ℤ → ℕ
line_value (pos n) = n % 256
line_value (negsuc n) = 255 - n % 256

abbrev pub set_req : (Req → Req) → Io → Io
set_req f io = record io { req = f io.req }

-- A step, and the next one if it did not fail: `if(res) break;`.
infixl 30 ◌>>◌
unfoldable pub ◌>>◌ : Out → (Io → Out) → Out
r >> next = if failed r.res then r else next r.io

module _ (kernel : Kernel) where
  abbrev pub perform : Call → Log → Log
  perform c log = record { call = c; rc = (kernel log c).rc } ∷ log

  unfoldable pub pin_set : ℕ → ℤ → Io → Out
  pin_set fd val io =
      let c = Call.set_line_values fd (line_value val) in
      record { res = (kernel io.log c).rc; io = record io { log = perform c io.log } }

  -- `pin_get(req->tdo_fd, &line_tdo)`, and `req->tdo_val = line_tdo` if it returns 0.
  unfoldable pub get_tdo : Io → Out
  get_tdo io =
      let c = Call.get_line_values io.req.tdo_fd in
      let a = kernel io.log c in
      let log = perform c io.log in
      if negative a.rc then record { res = a.rc; io = record io { log = log } } else record {
        res = pos 0;
        io = record { req = record io.req { tdo_val = pos (a.out % 256) }; log = log };
      }

  unfoldable pub pin_reconf : ℕ → Bool → Io → Out
  pin_reconf fd input io =
      let c = Call.set_config fd input in
      record { res = (kernel io.log c).rc; io = record io { log = perform c io.log } }

  -- `close(fd)`, whose result is not read.
  abbrev pub close_fd : ℤ → Io → Io
  close_fd fd io = record io { log = perform (Call.close fd) io.log }

  -- `ioctl(chip_fd, GPIO_GET_LINEHANDLE_IOCTL, &gr)`, with what keeps `gr.fd`.
  unfoldable pub get_line : ℤ → ℕ → Bool → (ℕ → Req → Req) → Io → Out
  get_line chip_fd pin is_output keep io =
      let c = Call.get_linehandle chip_fd pin is_output in
      let a = kernel io.log c in
      let log = perform c io.log in
      if negative a.rc
      then record { res = negsuc 0; io = record io { log = log } }
      else record { res = pos 0; io = record { req = keep a.out io.req; log = log } }

  abbrev pub set_tck : ℤ → Io → Out
  set_tck val io = pin_set io.req.tck_fd val io

  abbrev pub set_tms : Io → Out
  set_tms io = pin_set io.req.tms_fd io.req.tms_val io

  abbrev pub set_tdi : Io → Out
  set_tdi io =
      if negative io.req.tdi_val
      then record { res = pos 0; io = io }
      else pin_set io.req.tdi_fd io.req.tdi_val io

  -- What follows the configuration of the four pins.
  abbrev pub finish_init : ℤ → Io → Out
  finish_init chip_fd io =
      let r = set_tck (pos 1) io in
      if failed r.res then record r { res = negsuc 0 } else record r { io = close_fd chip_fd r.io }

  abbrev pub init_lines : Wiring → ℤ → Io → Out
  init_lines w chip_fd io =
      get_line chip_fd w.tdi_pin true (λ fd req. record req { tdi_fd = fd }) io
      >> get_line chip_fd w.tms_pin true (λ fd req. record req { tms_fd = fd })
      >> get_line chip_fd w.tck_pin true (λ fd req. record req { tck_fd = fd })
      >> get_line chip_fd w.tdo_pin false (λ fd req. record req { tdo_fd = fd })
      >> finish_init chip_fd

  -- `case KSVF_INIT`
  unfoldable pub svfctl_init : Wiring → Io → Out
  svfctl_init w io =
      let c = Call.open_chip w.gpiochip in
      let chip_fd = (kernel io.log c).rc in
      let opened = record io { log = perform c io.log } in
      if negative chip_fd
      then record { res = negsuc 0; io = opened }
      else init_lines w chip_fd opened

  -- `case KSVF_FINI`: what it returns is the result of the last `pin_reconf`.
  unfoldable pub svfctl_fini : Io → Out
  svfctl_fini io =
      let req = io.req in
      let tms = pin_reconf req.tms_fd true io in
      let tdi = pin_reconf req.tdi_fd true tms.io in
      let tck = pin_reconf req.tck_fd true tdi.io in
      record {
        res = tck.res;
        io = close_fd (pos req.tdo_fd) (
            close_fd (pos req.tdi_fd)
              (close_fd (pos req.tms_fd) (close_fd (pos req.tck_fd) tck.io)));
      }

  -- The body of the loop of `case KSVF_UDELAY`.
  unfoldable pub toggle : Io → Out
  toggle io = set_tck (pos 0) io >> set_tck (pos 1)

  -- That loop, with `n` and what is left to do.
  unfoldable pub toggle_all : ℕ → ℕ → Io → Out × ℕ
  toggle_all zero n io = (record { res = pos 0; io = io }, n)
  toggle_all (suc left) n io =
      let r = toggle io in
      let rest = toggle_all left (suc n) r.io in if failed r.res then (r, n) else rest

  abbrev pub count_tck : Out → ℕ → Out
  count_tck r n = record r { io = set_req (λ req. record req { tck_cnt = n }) r.io }

  -- `case KSVF_UDELAY`
  unfoldable pub svfctl_udelay : Io → Out
  svfctl_udelay io =
      let tms = set_tms io in
      let done = toggle_all io.req.tck_cnt 0 tms.io in
      if leb io.req.tck_cnt 0
      then count_tck (record { res = pos 0; io = io }) 0
      else (if failed tms.res then count_tck tms 0 else count_tck done.0 done.1)

  -- `case KSVF_PULSE`
  unfoldable pub svfctl_pulse : Io → Out
  svfctl_pulse io = set_tms io >> set_tdi >> set_tck (pos 0) >> set_tck (pos 1) >> get_tdo
