-- ===== src/Svf/Failure.antt =====
-- What svfload/svfload.c does when a call of the kernel fails while it plays.
use mathlib.Core.Option.{some-injective}
use pi_industrial_robottools.Base.{
  ℕ, zero, suc, ◌<◌, ◌≡◌, refl, sym, ap, ◌∙◌, true, false, none, some, leb, arith,
}
use Prim.Native.Nat.{min}
use pi_industrial_robottools.Base.Int.{ℤ}
use pi_industrial_robottools.Svf.Gpio.{
  Call, Log, Kernel, Io, failed, line_value, pin_set, svfctl_udelay,
}
use pi_industrial_robottools.Svf.Player.{Args, show_progress, ask_delay, delay_round, delay_loop}
use pi_industrial_robottools.Svf.Passes.{analyze-Kept, analyze_run}
use pi_industrial_robottools.Svf.Program.{svf, Machine, main_analyze, main_play}

module _ (kernel : Kernel) where
  refused_udelay :
      (io : Io)
      → ((log : Log) (v : ℕ) → failed (kernel log (Call.set_line_values io.req.tms_fd v)).rc ≡ true)
      → ((svfctl_udelay kernel io).io.req ≡ record io.req { tck_cnt = 0 })
  unfolding svfctl_udelay pin_set
  refused_udelay io h = ground (arith, h io.log (line_value io.req.tms_val))

  show_progress-kreq : (args : Args) → (show_progress args).kreq ≡ args.kreq
  unfolding show_progress
  show_progress-kreq args = ground arith

  refused_round :
      (tms : ℤ) (remaining : ℕ) (args : Args)
      → ((log : Log) (v : ℕ)
          → failed (kernel log (Call.set_line_values args.kreq.tms_fd v)).rc ≡ true)
      → ((ask_delay kernel tms remaining args).io.req.tck_cnt ≡ 0)
        × ((delay_round kernel tms remaining args).kreq.tms_fd ≡ args.kreq.tms_fd)
  refused_round tms remaining args h =
      let e =
        refused_udelay
          record {
            req = record args.kreq { tck_cnt = min remaining 100_000; tms_val = tms };
            log = args.log;
          }
          h in
      (ap (λ q. q.tck_cnt) e, ap (λ q. q.tms_fd) (show_progress-kreq _ ∙ e))

  -- If setting TMS fails every time, the loop of `cb_play_udelay`, with clocks left to make, does
  -- not end in any number of rounds.
  pub delay_never_ends :
      (fuel : ℕ) (tms : ℤ) (remaining : ℕ) (args : Args)
      → ((log : Log) (v : ℕ)
          → failed (kernel log (Call.set_line_values args.kreq.tms_fd v)).rc ≡ true)
      → 0 < remaining
      → delay_loop kernel fuel tms remaining args ≡ none
  unfolding delay_loop
  delay_never_ends zero tms remaining args h more =
      let e : leb remaining 0 ≡ false = ground arith in rw e refl
  delay_never_ends (suc fuel) tms remaining args h more =
      let e : leb remaining 0 ≡ false = ground arith in
      let (count, same) = refused_round tms remaining args h in
      rw e (
        delay_never_ends fuel tms _ (delay_round kernel tms remaining args)
          (λ log v. rw same (h log v)) (omega (arith, count)))

module _ (m : Machine) where
  -- If the analysis of the file fails, `main_play` returns its result and has made no call of the
  -- hardware.
  pub main_play-refused :
      (args a1 args' : Args) (rc1 rc : ℤ)
      → main_analyze m args ≡ some (rc1, a1)
      → failed rc1 ≡ true
      → main_play m args ≡ some (rc, args')
      → (rc ≡ rc1) × (args'.log ≡ args.log)
  unfolding main_play
  main_play-refused args a1 args' rc1 rc ea bad e =
      let p = some-injective _ _ (rw (ea, bad, main_play) at e) in
      let kept =
        analyze-Kept m.char (m.libxsvf_play svf) args a1 rc1 (sym (analyze_run m args) ∙ ea) in
      (ap (λ x. x.0) (sym p), ap (λ x. x.1.log) (sym p) ∙ kept.log_same)
