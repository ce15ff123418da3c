-- ===== src/Svf/Passes.antt =====
-- The passes of `main_play` of svfload/svfload.c: the clocks that the analysis counts are the
-- clocks that the play makes.
use mathlib.Core.Option.{some-injective}
use pi_industrial_robottools.Base.{
  ℕ, ◌≡◌, refl, sym, ap, ◌∙◌, subst, inl, inr, false, Option, none, some, arith, Bool-cases,
  Option-cases,
}
use pi_industrial_robottools.Base.Int.{ℤ, pos}
use pi_industrial_robottools.Svf.Gpio.{failed, negative}
use pi_industrial_robottools.Svf.Player.{
  Args, cb_play_udelay, cb_get_byte, cb_play_setup, cb_play_shutdown, cb_report_device,
  cb_analyze_udelay, cb_analyze_pulse_tck, cb_analyze_setup, cb_verbose_play_pulse_tck,
}
use pi_industrial_robottools.Svf.Program.{
  svf, Callback, Script, finish, call, Host, run, analyze_host, play_host, Machine, main_analyze,
  main_play,
}
use pi_industrial_robottools.Svf.Library.{IsBody, IsPlayer, begins}
use pi_industrial_robottools.Svf.Aligned.{
  Aligned, run-Fails, resume, Counted-Aligned, delay_total, analyze_answer, shutdown-Aligned,
  shutdown_total, report-Aligned, report_total, getbyte-Aligned, Kept, get_byte-Kept,
}
use pi_industrial_robottools.Svf.Count.{pulse-Counted, cb_play_udelay-Counted}

-- What the two passes over a script end with.
record Agree (b a' b' : Args) (rc rc' : ℤ) : Type 0 where
  pub count_same : b'.tck_count ≡ a'.tck_total
  pub total_same : b'.tck_total ≡ b.tck_total
  pub rc_same : rc' ≡ rc

carried :
    {b b1 a' b' : Args} {rc rc' : ℤ}
    → b1.tck_total ≡ b.tck_total
    → Agree b1 a' b' rc rc'
    → Agree b a' b' rc rc'
carried e g = record {
  count_same = g.count_same;
  total_same = g.total_same ∙ e;
  rc_same = g.rc_same;
}

module _ (m : Machine) where
  abbrev player : Host
  player = play_host m.kernel m.wiring m.fuel

  body-Agree :
      (s : Script) (a a' b b' : Args) (rc rc' : ℤ)
      → IsBody s
      → Aligned a b
      → run m.char player s b ≡ some (rc, b')
      → failed rc ≡ false
      → run m.char analyze_host s a ≡ some (rc', a')
      → Agree b a' b' rc rc'
  unfolding run IsBody cb_analyze_pulse_tck
  body-Agree (finish _) a a' b b' rc rc' body al eb ok ea =
      let pb = some-injective _ _ eb in
      let pa = some-injective _ _ ea in
      record {
        count_same =
            ap (λ p. p.1.tck_count) (sym pb) ∙ sym al.count_same ∙ ap (λ p. p.1.tck_total) pa;
        total_same = ap (λ p. p.1.tck_total) (sym pb);
        rc_same = ap (λ p. p.0) (sym pa) ∙ ap (λ p. p.0) pb;
      }
  body-Agree (call Callback.setup k) a a' b b' rc rc' body al eb ok ea = absurd body.0
  body-Agree (call Callback.shutdown k) a a' b b' rc rc' body al eb ok ea =
      let b1 = (cb_play_shutdown m.kernel b).1 in
      let r = (cb_play_shutdown m.kernel b).0 in
      let resumed = resume m.char player k (pos 0) r b1 b' rc body.0 refl ok eb in
      let rest =
        body-Agree (k (pos 0)) a a' b1 b' rc rc' (body.1 (pos 0)) (shutdown-Aligned m.kernel al)
          resumed ok ea in
      carried (shutdown_total m.kernel b) rest
  body-Agree (call (Callback.udelay usecs tms num_tck) k) a a' b b' rc rc' body al eb ok ea =
      elim (Option-cases (cb_play_udelay m.kernel m.fuel usecs tms num_tck b)) [
        | inl stuck ↦
            let never : Path (Option (ℤ × Args)) none (some (rc, b')) = rw (stuck, run) at eb in cc
        | inr (b1, e) ↦
            let c = cb_play_udelay-Counted m.kernel m.fuel usecs tms num_tck b b1 al.small e in
            let rest =
              body-Agree (k (pos 0)) (cb_analyze_udelay usecs tms num_tck a) a' b1 b' rc rc'
                (body.1 (pos 0))
                (subst (λ x. Aligned x b1) (delay_total usecs tms num_tck a body.0)
                  (Counted-Aligned al c))
                (rw (e, run) at eb) ok ea in
            carried c.total_same rest
      ]
  body-Agree (call (Callback.pulse_tck tms tdi tdo rmask sync) k) a a' b b' rc rc' body al eb ok
        ea =
      let b1 = (cb_verbose_play_pulse_tck m.kernel tms tdi tdo b).1 in
      let r = (cb_verbose_play_pulse_tck m.kernel tms tdi tdo b).0 in
      let a1 = (cb_analyze_pulse_tck tms tdi tdo a).1 in
      let q = (cb_analyze_pulse_tck tms tdi tdo a).0 in
      let c = pulse-Counted m.kernel tms tdi tdo b in
      let resumed : run m.char player (k q) b1 ≡ some (rc, b') = elim body.0 [
        | inl checked ↦
            resume m.char player k q r b1 b' rc checked (analyze_answer tms tdi tdo a) ok eb
        | inr blind ↦ subst (λ s. run m.char player s b1 ≡ some (rc, b')) (blind r q) eb
      ] in
      let rest =
        body-Agree (k q) a1 a' b1 b' rc rc' (body.1 q) (Counted-Aligned al c) resumed ok ea in
      carried c.total_same rest
  body-Agree (call Callback.getbyte k) a a' b b' rc rc' body al eb ok ea =
      let (answer, aligned, total) = getbyte-Aligned m.char al in
      let rest =
        body-Agree (k (cb_get_byte m.char a).0) (cb_get_byte m.char a).1 a' (cb_get_byte m.char b).1
          b' rc rc' (body.1 (cb_get_byte m.char a).0) aligned
          (subst (λ r. run m.char player (k r) (cb_get_byte m.char b).1 ≡ some (rc, b')) answer eb)
          ok ea in
      carried total rest
  body-Agree (call Callback.report_error k) a a' b b' rc rc' body al eb ok ea =
      body-Agree (k (pos 0)) a a' b b' rc rc' (body.1 (pos 0)) al eb ok ea
  body-Agree (call (Callback.set_frequency freq) k) a a' b b' rc rc' body al eb ok ea =
      body-Agree (k (pos 0)) a a' b b' rc rc' (body.1 (pos 0)) al eb ok ea
  body-Agree (call (Callback.report_device idcode) k) a a' b b' rc rc' body al eb ok ea =
      let rest =
        body-Agree (k (pos 0)) (cb_report_device idcode a) a' (cb_report_device idcode b) b' rc rc'
          (body.1 (pos 0)) (report-Aligned idcode al) eb ok ea in
      carried (report_total idcode b) rest

pub analyze-Kept :
    (char : ℕ → ℤ) (s : Script) (a a' : Args) (rc : ℤ)
    → run char analyze_host s a ≡ some (rc, a')
    → Kept a a'
unfolding run cb_analyze_pulse_tck cb_analyze_udelay cb_analyze_setup cb_report_device
analyze-Kept char (finish _) a a' rc e =
    let p = some-injective _ _ e in
    record { data_same = ap (λ q. q.1.svf_data) (sym p); log_same = ap (λ q. q.1.log) (sym p) }
analyze-Kept char (call Callback.setup k) a a' rc e =
    let r = analyze-Kept char (k _) _ a' rc e in
    record { data_same = r.data_same; log_same = r.log_same }
analyze-Kept char (call Callback.shutdown k) a a' rc e =
    let r = analyze-Kept char (k _) _ a' rc e in
    record { data_same = r.data_same; log_same = r.log_same }
analyze-Kept char (call (Callback.udelay _ _ _) k) a a' rc e =
    let r = analyze-Kept char (k _) _ a' rc e in
    record { data_same = r.data_same; log_same = r.log_same }
analyze-Kept char (call (Callback.pulse_tck _ _ _ _ _) k) a a' rc e =
    let r = analyze-Kept char (k _) _ a' rc e in
    record { data_same = r.data_same; log_same = r.log_same }
analyze-Kept char (call Callback.getbyte k) a a' rc e =
    let first = get_byte-Kept char a in
    let rest = analyze-Kept char (k _) _ a' rc e in
    record {
      data_same = rest.data_same ∙ first.data_same;
      log_same = rest.log_same ∙ first.log_same;
    }
analyze-Kept char (call Callback.report_error k) a a' rc e =
    let r = analyze-Kept char (k _) _ a' rc e in
    record { data_same = r.data_same; log_same = r.log_same }
analyze-Kept char (call (Callback.set_frequency _) k) a a' rc e =
    let r = analyze-Kept char (k _) _ a' rc e in
    record { data_same = r.data_same; log_same = r.log_same }
analyze-Kept char (call (Callback.report_device _) k) a a' rc e =
    let r = analyze-Kept char (k _) _ a' rc e in
    record { data_same = r.data_same; log_same = r.log_same }

module _ (m : Machine) where
  setup-Aligned :
      (args a1 : Args)
      → args.tck_total ≡ 0
      → a1.svf_data ≡ args.svf_data
      → Aligned (cb_analyze_setup args).1 (cb_play_setup m.kernel m.wiring a1).1
  unfolding cb_analyze_setup cb_play_setup
  setup-Aligned args a1 zero_total kept = record {
    data_same = sym kept;
    ptr_same = refl;
    count_same = zero_total;
    small = omega arith;
  }

  setup_total : (a1 : Args) → (cb_play_setup m.kernel m.wiring a1).1.tck_total ≡ a1.tck_total
  unfolding cb_play_setup
  setup_total a1 = refl

  played-Agree :
      (s : Script) (args a1 args' : Args) (rc1 rc : ℤ)
      → IsPlayer s
      → args.tck_total ≡ 0
      → run m.char analyze_host s args ≡ some (rc1, a1)
      → failed rc1 ≡ false
      → run m.char (player m) s a1 ≡ some (rc, args')
      → failed rc ≡ false
      → args'.tck_count ≡ args'.tck_total
  unfolding run
  played-Agree _ args a1 args' rc1 rc (begins k checked body) zero_total ea ok1 eb ok =
      let q = (cb_analyze_setup args).0 in
      let r = (cb_play_setup m.kernel m.wiring a1).0 in
      elim (Bool-cases (negative q)) [
        | inl bad ↦
            let wrong =
              run-Fails m.char analyze_host (k q) (cb_analyze_setup args).1 a1 rc1
                (checked.negative_fails q bad) ea in
            cc
        | inr good ↦
            let kept = analyze-Kept m.char (call Callback.setup k) args a1 rc1 ea in
            let b = (cb_play_setup m.kernel m.wiring a1).1 in
            let resumed = resume m.char (player m) k q r b args' rc checked good ok eb in
            let g =
              body-Agree m (k q) (cb_analyze_setup args).1 a1 b args' rc rc1 (body q)
                (setup-Aligned args a1 zero_total kept.data_same) resumed ok ea in
            g.count_same ∙ sym (g.total_same ∙ setup_total a1)
      ]

  pub analyze_run :
      (args : Args) → main_analyze m args ≡ run m.char analyze_host (m.libxsvf_play svf) args
  unfolding main_analyze
  analyze_run args = refl

  -- When `main_play`, started with a total of 0, returns 0, the clocks that it counted while it
  -- played are those that the analysis before it counted, whatever calls of the kernel failed on
  -- the way. The library sets the host up first, ends with an error after a callback that reports
  -- one unless it never reads that result, reads only the sign of the results, and asks for no
  -- negative delay.
  pub main_play-counts :
      (args args' : Args) (rc : ℤ)
      → IsPlayer (m.libxsvf_play svf)
      → args.tck_total ≡ 0
      → main_play m args ≡ some (rc, args')
      → failed rc ≡ false
      → args'.tck_count ≡ args'.tck_total
  unfolding main_play
  main_play-counts args args' rc p zero_total e ok = elim (Option-cases (main_analyze m args)) [
    | inl stuck ↦
        let never : Path (Option (ℤ × Args)) none (some (rc, args')) = rw (stuck, main_play) at e in
        cc
    | inr ((rc1, a1), ea) ↦ elim (Bool-cases (failed rc1)) [
      | inl bad ↦
          let ended : Path (Option (ℤ × Args)) (some (rc1, a1)) (some (rc, args')) =
            rw (ea, bad, main_play) at e in
          let same = ap (λ p. p.0) (some-injective _ _ ended) in cc
      | inr good ↦
          played-Agree (m.libxsvf_play svf) args a1 args' rc1 rc p zero_total
            (sym (analyze_run args) ∙ ea) good (rw (ea, good, main_play) at e) ok
    ]
  ]
