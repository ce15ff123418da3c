-- ===== src/Svf/Wave.antt =====
-- What the calls of svfload/svfload.c do to the JTAG lines: a set that succeeds gives a line its
-- level, and the device samples TMS and TDI when TCK rises.
use pi_industrial_robottools.Base.{
  ℕ, ◌≡◌, ◌≢◌, refl, Bool, true, false, List, [], ◌∷◌, ◌++◌, ltb, ◌==◌, ◌&&◌, if◌then◌else◌, arith,
}
use pi_industrial_robottools.Base.Int.{ℤ}
use pi_industrial_robottools.Svf.Gpio.{
  Call, Event, Log, Kernel, Req, Io, Out, failed, line_value, ◌>>◌, pin_set,
}

-- What the device sees at a rising edge of TCK.
pub record Edge : Type 0 where
  pub tms : ℕ
  pub tdi : ℕ

pub record Lines : Type 0 where
  pub tms : ℕ
  pub tdi : ℕ
  pub tck : ℕ
  pub edges : List Edge

abbrev pub rises : ℕ → Lines → Bool
rises v l = ltb 0 v && l.tck == 0

abbrev pub set_tck_line : ℕ → Lines → Lines
set_tck_line v l = record l {
  tck = v;
  edges = if rises v l then l.edges ++ (record { tms = l.tms; tdi = l.tdi } ∷ []) else l.edges;
}

-- The handles of the three outputs.
pub record Handles : Type 0 where
  pub tms_fd : ℕ
  pub tdi_fd : ℕ
  pub tck_fd : ℕ

abbrev pub handles : Req → Handles
handles req = record { tms_fd = req.tms_fd; tdi_fd = req.tdi_fd; tck_fd = req.tck_fd }

-- A successful set of the line with this handle.
abbrev pub set_line : Handles → ℕ → ℕ → Lines → Lines
set_line hs fd v l =
    if fd == hs.tms_fd
    then record l { tms = v }
    else (if fd == hs.tdi_fd
        then record l { tdi = v }
        else (if fd == hs.tck_fd then set_tck_line v l else l))

abbrev pub after_call : Handles → Call → Lines → Lines
after_call hs (Call.set_line_values fd v) l = set_line hs fd v l
after_call hs _ l = l

abbrev pub after_event : Handles → Event → Lines → Lines
after_event hs e l = if failed e.rc then l else after_call hs e.call l

-- The lines after the calls of a log, from all low with no edge.
unfoldable pub lines : Handles → Log → Lines
lines hs [] = record { tms = 0; tdi = 0; tck = 0; edges = [] }
lines hs (e ∷ log) = after_event hs e (lines hs log)

-- The handles of the three outputs differ.
pub record IsDistinct (hs : Handles) : Type 0 where
  pub tms_ne_tdi : hs.tms_fd ≢ hs.tdi_fd
  pub tms_ne_tck : hs.tms_fd ≢ hs.tck_fd
  pub tdi_ne_tck : hs.tdi_fd ≢ hs.tck_fd

pub set_line_tck :
    (hs : Handles) (v : ℕ) (l : Lines)
    → IsDistinct hs
    → set_line hs hs.tck_fd v l ≡ set_tck_line v l
set_line_tck hs v l d = ground arith

pub set_line_tdi :
    (hs : Handles) (v : ℕ) (l : Lines)
    → IsDistinct hs
    → set_line hs hs.tdi_fd v l ≡ record l { tdi = v }
set_line_tdi hs v l d = ground arith

pub set_line_tms :
    (hs : Handles) (v : ℕ) (l : Lines)
    → IsDistinct hs
    → set_line hs hs.tms_fd v l ≡ record l { tms = v }
set_line_tms hs v l d = ground arith

pub bind_ok : (r : Out) (f : Io → Out) → failed r.res ≡ false → r >> f ≡ f r.io
unfolding ◌>>◌
bind_ok r f h = rw h refl

pub bind_failed : (r : Out) (f : Io → Out) → failed r.res ≡ true → r >> f ≡ r
unfolding ◌>>◌
bind_failed r f h = rw h refl

pub bind_first : (r : Out) (f : Io → Out) → failed (r >> f).res ≡ false → failed r.res ≡ false
unfolding ◌>>◌
bind_first r f h = ground arith

pub bind_last : (r : Out) (f : Io → Out) → failed (r >> f).res ≡ false → failed (f r.io).res ≡ false
unfolding ◌>>◌
bind_last r f h = ground arith

module _ (kernel : Kernel) where
  pub pin_set-req : (fd : ℕ) (val : ℤ) (io : Io) → (pin_set kernel fd val io).io.req ≡ io.req
  unfolding pin_set
  pin_set-req fd val io = refl

  pub pin_set-ok :
      (hs : Handles) (fd : ℕ) (val : ℤ) (io : Io)
      → failed (pin_set kernel fd val io).res ≡ false
      → lines hs (pin_set kernel fd val io).io.log
        ≡ set_line hs fd (line_value val) (lines hs io.log)
  unfolding pin_set lines
  pin_set-ok hs fd val io h = rw h refl

  pub pin_set-failed :
      (hs : Handles) (fd : ℕ) (val : ℤ) (io : Io)
      → failed (pin_set kernel fd val io).res ≡ true
      → lines hs (pin_set kernel fd val io).io.log ≡ lines hs io.log
  unfolding pin_set lines
  pin_set-failed hs fd val io h = rw h refl
