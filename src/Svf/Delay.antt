-- ===== src/Svf/Delay.antt =====
-- `svfctl(KSVF_UDELAY, req)` of svfload/svfload.c: the clocks that it makes.
use pi_industrial_robottools.Base.{
  ℕ, ◌-◌, ◌≤◌, ◌≡◌, refl, sym, ap, ◌∙◌, subst, inl, inr, false, ◌++◌, leb, arith, replicate,
  Bool-cases, tests,
}
use mathlib.Core.List.{append-nil}
use pi_industrial_robottools.Base.Int.{pos}
use pi_industrial_robottools.Svf.Gpio.{
  Kernel, Io, Out, failed, line_value, pin_set, set_tms, toggle_all, svfctl_udelay,
}
use pi_industrial_robottools.Svf.Wave.{
  handles, lines, IsDistinct, set_line_tms, pin_set-req, pin_set-ok, pin_set-failed,
}
use pi_industrial_robottools.Svf.Edges.{Toggled, toggle_all-Toggled}

-- The request keeps all but its count; the count that it comes back with is the number of times
-- that TCK rose, each time with TMS at the level asked for; and without a failure it is the
-- count asked for.
pub record Delayed (io : Io) (r : Out) : Type 0 where
  pub req_kept : r.io.req ≡ record io.req { tck_cnt = r.io.req.tck_cnt }
  pub le_asked : r.io.req.tck_cnt ≤ io.req.tck_cnt
  pub complete : failed r.res ≡ false → r.io.req.tck_cnt ≡ io.req.tck_cnt
  pub tdi_same : (lines (handles io.req) r.io.log).tdi ≡ (lines (handles io.req) io.log).tdi
  pub edges_more :
      (lines (handles io.req) r.io.log).edges
      ≡ (lines (handles io.req) io.log).edges
        ++ replicate r.io.req.tck_cnt
            (record { tms = line_value io.req.tms_val; tdi = (lines (handles io.req) io.log).tdi })

module _ (kernel : Kernel) where
  set_tms-lines :
      (io : Io)
      → IsDistinct (handles io.req)
      → failed (set_tms kernel io).res ≡ false
      → lines (handles io.req) (set_tms kernel io).io.log
        ≡ record (lines (handles io.req) io.log) { tms = line_value io.req.tms_val }
  set_tms-lines io d ok =
      rw (pin_set-ok kernel (handles io.req) io.req.tms_fd io.req.tms_val io ok) (
        set_line_tms (handles io.req) (line_value io.req.tms_val) (lines (handles io.req) io.log) d)

  Toggled-Delayed :
      (io : Io) (r : Out × ℕ)
      → failed (set_tms kernel io).res ≡ false
      → IsDistinct (handles io.req)
      → Toggled kernel io.req.tck_cnt 0 (set_tms kernel io).io r
      → Delayed io (record r.0 { io = record r.0.io { req = record r.0.io.req { tck_cnt = r.1 } } })
  unfolding pin_set
  Toggled-Delayed io r ok d t =
      let e = set_tms-lines io d ok in
      let count : r.1 - 0 ≡ r.1 = omega arith in
      record {
        req_kept = rw t.req_same refl;
        le_asked = omega (arith, t.le_left);
        complete = λ h. omega (arith, t.complete h);
        tdi_same = t.clocked.tdi_same ∙ ap (λ l. l.tdi) e;
        edges_more = rw (count, e) at t.clocked.edges_more;
      }

  none-Delayed :
      (io : Io) (r : Out)
      → r.io.req ≡ io.req
      → (failed r.res ≡ false → io.req.tck_cnt ≡ 0)
      → lines (handles io.req) r.io.log ≡ lines (handles io.req) io.log
      → Delayed io (record r { io = record r.io { req = record r.io.req { tck_cnt = 0 } } })
  none-Delayed io r same zero_if e = record {
    req_kept = rw same refl;
    le_asked = omega arith;
    complete = λ h. sym (zero_if h);
    tdi_same = rw e refl;
    edges_more = rw e (sym (append-nil _));
  }

  -- Whichever calls of the kernel fail, `KSVF_UDELAY` changes nothing of the request but its
  -- count, which comes back as exactly the number of times that TCK rose, each time with TMS at
  -- the level asked for and TDI as it was; it is at most the count asked for, and equal to it
  -- when no failure is returned. The handles of the three outputs differ.
  pub svfctl_udelay-Delayed :
      (io : Io) → IsDistinct (handles io.req) → Delayed io (svfctl_udelay kernel io)
  unfolding svfctl_udelay
  svfctl_udelay-Delayed io d = elim (Bool-cases (leb io.req.tck_cnt 0)) [
    | inl idle ↦
        rw idle (none-Delayed io (record { res = pos 0; io = io }) refl (λ _. omega tests) refl)
    | inr busy ↦ elim (Bool-cases (failed (set_tms kernel io).res)) [
      | inl bad ↦
          rw (busy, bad)
            (none-Delayed io (set_tms kernel io)
              (pin_set-req kernel io.req.tms_fd io.req.tms_val io) (λ h. cc)
              (pin_set-failed kernel (handles io.req) io.req.tms_fd io.req.tms_val io bad))
      | inr ok ↦
          rw (busy, ok)
            (Toggled-Delayed io (toggle_all kernel io.req.tck_cnt 0 (set_tms kernel io).io) ok d (
              toggle_all-Toggled kernel io.req.tck_cnt 0 (set_tms kernel io).io (
                subst (λ q. IsDistinct (handles q))
                  (sym (pin_set-req kernel io.req.tms_fd io.req.tms_val io)) d)))
    ]
  ]
