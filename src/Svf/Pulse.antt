-- ===== src/Svf/Pulse.antt =====
-- `svfctl(KSVF_PULSE, req)` of svfload/svfload.c: the one clock that it makes, and the bit that it
-- reads.
use pi_industrial_robottools.Base.{
  ℕ, ◌%◌, ◌≡◌, refl, ap, ◌∙◌, subst, inl, inr, true, false, [], ◌∷◌, ◌++◌, if◌then◌else◌, arith,
  Bool-cases,
}
use pi_industrial_robottools.Base.Int.{ℤ, pos}
use pi_industrial_robottools.Svf.Gpio.{
  Call, Log, perform, Kernel, Req, Io, Out, failed, negative, line_value, ◌>>◌, pin_set, set_tms,
  set_tdi, set_tck, get_tdo, svfctl_pulse,
}
use pi_industrial_robottools.Svf.Wave.{
  Lines, Handles, handles, lines, IsDistinct, set_line, pin_set-req, set_line_tms, set_line_tdi,
  set_line_tck, pin_set-ok, bind_ok, bind_first, bind_last,
}

-- The level of TDI that a pulse asks for: a negative one leaves the line.
abbrev pub tdi_level : ℤ → Lines → ℕ
tdi_level tdi l = if negative tdi then l.tdi else line_value tdi

-- One edge, with the levels asked for, then the read of TDO.
pub record Pulsed (io : Io) (r : Out) : Type 0 where
  pub edges_more :
      let l = lines (handles io.req) io.log in
      (lines (handles io.req) r.io.log).edges
      ≡ l.edges
        ++ (record { tms = line_value io.req.tms_val; tdi = tdi_level io.req.tdi_val l } ∷ [])
  pub tdi_left :
      (lines (handles io.req) r.io.log).tdi
      ≡ tdi_level io.req.tdi_val (lines (handles io.req) io.log)
  pub tdo_read : (v : ℕ) × (r.io.req ≡ record io.req { tdo_val = pos v })

-- After some steps that did not fail the request is as before and the lines are `l`.
record Stage (io : Io) (r : Out) (l : Lines) : Type 0 where
  pub req_same : r.io.req ≡ io.req
  pub lines_are : lines (handles io.req) r.io.log ≡ l

one_edge :
    (hs : Handles) (l : Lines)
    → IsDistinct hs
    → set_line hs hs.tck_fd 1 (set_line hs hs.tck_fd 0 l)
      ≡ record l { tck = 1; edges = l.edges ++ (record { tms = l.tms; tdi = l.tdi } ∷ []) }
one_edge hs l d = rw (set_line_tck hs 0 l d, set_line_tck hs 1 (record l { tck = 0 }) d) refl

module _ (kernel : Kernel) where
  set_tms-Stage :
      (io : Io)
      → IsDistinct (handles io.req)
      → failed (set_tms kernel io).res ≡ false
      → Stage io
          (set_tms kernel io)
          (record (lines (handles io.req) io.log) { tms = line_value io.req.tms_val })
  set_tms-Stage io d ok = record {
    req_same = pin_set-req kernel io.req.tms_fd io.req.tms_val io;
    lines_are = rw (pin_set-ok kernel (handles io.req) io.req.tms_fd io.req.tms_val io ok) (
        set_line_tms (handles io.req) (line_value io.req.tms_val) (lines (handles io.req) io.log)
          d);
  }

  abbrev send : (Req → ℕ) → (Req → ℤ) → Io → Out
  send fd val io = pin_set kernel (fd io.req) (val io.req) io

  send-Stage :
      {io : Io} {r : Out} {l : Lines} (fd : Req → ℕ) (val : Req → ℤ)
      → Stage io r l
      → failed (r >> send fd val).res ≡ false
      → Stage io
          (r >> send fd val)
          (set_line (handles io.req) (fd io.req) (line_value (val io.req)) l)
  send-Stage {io} {r} {l} fd val s h =
      let ok = bind_last r (send fd val) h in
      rw (bind_ok r (send fd val) (bind_first r (send fd val) h)) record {
        req_same = pin_set-req kernel (fd r.io.req) (val r.io.req) r.io ∙ s.req_same;
        lines_are =
            rw (pin_set-ok kernel (handles io.req) (fd r.io.req) (val r.io.req) r.io ok)
              (rw (s.req_same, s.lines_are) refl);
      }

  set_tdi_skip :
      (io : Io)
      → negative io.req.tdi_val ≡ true
      → set_tdi kernel io ≡ record { res = pos 0; io = io }
  set_tdi_skip io h = rw h refl

  set_tdi_sent :
      (io : Io)
      → negative io.req.tdi_val ≡ false
      → set_tdi kernel io ≡ pin_set kernel io.req.tdi_fd io.req.tdi_val io
  set_tdi_sent io h = rw h refl

  tdi-Stage :
      {io : Io} {r : Out} {l : Lines}
      → IsDistinct (handles io.req)
      → Stage io r l
      → failed (r >> set_tdi kernel).res ≡ false
      → Stage io (r >> set_tdi kernel) (record l { tdi = tdi_level io.req.tdi_val l })
  tdi-Stage {io} {r} {l} d s h =
      let first = bind_first r (set_tdi kernel) h in
      let last = bind_last r (set_tdi kernel) h in
      elim (Bool-cases (negative io.req.tdi_val)) [
        | inl skip ↦ rw (bind_ok r (set_tdi kernel) first) (
            rw (set_tdi_skip r.io (rw s.req_same skip))
              (rw skip (record { req_same = s.req_same; lines_are = s.lines_are })))
        | inr sent ↦
            let e = set_tdi_sent r.io (rw s.req_same sent) in
            let ok = subst (λ o. failed o.res ≡ false) e last in
            rw (bind_ok r (set_tdi kernel) first) (
              rw e (
                rw sent record {
                  req_same = pin_set-req kernel r.io.req.tdi_fd r.io.req.tdi_val r.io ∙ s.req_same;
                  lines_are =
                      rw
                        (pin_set-ok kernel (handles io.req) r.io.req.tdi_fd r.io.req.tdi_val r.io
                          ok)
                        (rw (s.req_same, s.lines_are)
                          (set_line_tdi (handles io.req) (line_value io.req.tdi_val) l d));
                }))
      ]

  lines-get_line_values :
      (hs : Handles) (fd : ℕ) (log : Log)
      → lines hs (perform kernel (Call.get_line_values fd) log) ≡ lines hs log
  unfolding lines
  lines-get_line_values hs fd log =
      elim (Bool-cases (failed (kernel log (Call.get_line_values fd)).rc)) [
        | inl bad ↦ rw bad refl
        | inr ok ↦ rw ok refl
      ]

  get_tdo_ok :
      (io : Io)
      → failed (get_tdo kernel io).res ≡ false
      → get_tdo kernel io ≡ record {
        res = pos 0;
        io = record {
          req = record io.req {
            tdo_val = pos ((kernel io.log (Call.get_line_values io.req.tdo_fd)).out % 256);
          };
          log = perform kernel (Call.get_line_values io.req.tdo_fd) io.log;
        };
      }
  unfolding get_tdo
  get_tdo_ok io h = ground arith

  get_tdo-Stage :
      {io : Io} {r : Out} {l : Lines}
      → Stage io r l
      → failed (r >> get_tdo kernel).res ≡ false
      → (lines (handles io.req) (r >> get_tdo kernel).io.log ≡ l)
        × ((v : ℕ) × ((r >> get_tdo kernel).io.req ≡ record io.req { tdo_val = pos v }))
  get_tdo-Stage {io} {r} {l} s h =
      rw (bind_ok r (get_tdo kernel) (bind_first r (get_tdo kernel) h)) (
        rw (get_tdo_ok r.io (bind_last r (get_tdo kernel) h)) (
          lines-get_line_values (handles io.req) r.io.req.tdo_fd r.io.log ∙ s.lines_are,
          ((kernel r.io.log (Call.get_line_values r.io.req.tdo_fd)).out % 256, rw s.req_same refl),
        ))

  -- When no call of the kernel fails, `KSVF_PULSE` makes exactly one rising edge of TCK.
  pub svfctl_pulse-Pulsed :
      (io : Io)
      → IsDistinct (handles io.req)
      → failed (svfctl_pulse kernel io).res ≡ false
      → Pulsed io (svfctl_pulse kernel io)
  unfolding svfctl_pulse
  svfctl_pulse-Pulsed io d h =
      let a = set_tms kernel io in
      let b = a >> set_tdi kernel in
      let c = b >> set_tck kernel (pos 0) in
      let e = c >> set_tck kernel (pos 1) in
      let oke = bind_first e (get_tdo kernel) h in
      let okc = bind_first c (set_tck kernel (pos 1)) oke in
      let okb = bind_first b (set_tck kernel (pos 0)) okc in
      let oka = bind_first a (set_tdi kernel) okb in
      let s = tdi-Stage d (set_tms-Stage io d oka) okb in
      let t = send-Stage (λ q. q.tck_fd) (λ _. pos 0) s okc in
      let u = send-Stage (λ q. q.tck_fd) (λ _. pos 1) t oke in
      let last = get_tdo-Stage u h in
      let e = last.0 ∙ one_edge (handles io.req) _ d in
      record { edges_more = ap (λ l. l.edges) e; tdi_left = ap (λ l. l.tdi) e; tdo_read = last.1 }
