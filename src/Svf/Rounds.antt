-- ===== src/Svf/Rounds.antt =====
-- `cb_play_udelay` of svfload/svfload.c, which asks for its clocks in rounds of at most 100000 and
-- asks again for those that a failure left out.
use mathlib.Core.Option.{some-injective}
use mathlib.Core.List.{append-nil, append_assoc}
use pi_industrial_robottools.Base.{
  ℕ, zero, suc, ◌+◌, ◌-◌, ◌≡◌, refl, sym, ap, ◌∙◌, subst, inl, inr, ◌++◌, Option, none, some, ltb,
  leb, arith, tests, replicate, replicate-add, Bool-cases,
}
use Prim.Native.Nat.{min}
use pi_industrial_robottools.Base.Int.{ℤ, pos_part}
use pi_industrial_robottools.Svf.Gpio.{Call, Log, Kernel, failed, line_value, perform}
use pi_industrial_robottools.Svf.Wave.{Handles, handles, lines, IsDistinct}
use pi_industrial_robottools.Svf.Delay.{svfctl_udelay-Delayed}
use pi_industrial_robottools.Svf.Player.{
  Args, show_progress, ask_delay, delay_round, delay_loop, cb_play_udelay,
}

-- From one state to the other the handles and TDI stay, and TCK rises `k` times with this TMS.
pub record Waited (tms : ℤ) (args args' : Args) (k : ℕ) : Type 0 where
  pub handles_same : handles args'.kreq ≡ handles args.kreq
  pub tdi_same :
      (lines (handles args.kreq) args'.log).tdi ≡ (lines (handles args.kreq) args.log).tdi
  pub edges_more :
      (lines (handles args.kreq) args'.log).edges
      ≡ (lines (handles args.kreq) args.log).edges
        ++ replicate k
            (record { tms = line_value tms; tdi = (lines (handles args.kreq) args.log).tdi })

Waited-none : (tms : ℤ) (args : Args) → Waited tms args args 0
Waited-none tms args = record {
  handles_same = refl;
  tdi_same = refl;
  edges_more = sym (append-nil _);
}

Waited-add :
    {tms : ℤ} {a b c : Args} {k j : ℕ}
    → Waited tms a b k
    → Waited tms b c j
    → Waited tms a c (k + j)
Waited-add {tms} {a} {b} {c} {k} {j} h g =
    let tdi_b = rw h.handles_same at g.tdi_same in
    let edges_b = rw h.handles_same at g.edges_more in
    record {
      handles_same = g.handles_same ∙ h.handles_same;
      tdi_same = tdi_b ∙ h.tdi_same;
      edges_more = rw (edges_b, h.tdi_same, h.edges_more, append_assoc, replicate-add k j _) refl;
    }

module _ (kernel : Kernel) where
  show_progress-Waited :
      {tms : ℤ} (args : Args) {args' : Args} {k : ℕ}
      → Waited tms args args' k
      → Waited tms args (show_progress args') k
  unfolding show_progress
  show_progress-Waited args {args'} w = elim (Bool-cases (ltb args'.tck_count args'.tck_compare)) [
    | inl early ↦ rw early w
    | inr due ↦
        rw due
          record { handles_same = w.handles_same; tdi_same = w.tdi_same; edges_more = w.edges_more }
  ]

  pub delay_round-Waited :
      (tms : ℤ) (remaining : ℕ) (args : Args)
      → IsDistinct (handles args.kreq)
      → Waited tms args
          (delay_round kernel tms remaining args)
          (ask_delay kernel tms remaining args).io.req.tck_cnt
  delay_round-Waited tms remaining args d =
      let w =
        svfctl_udelay-Delayed kernel
          record {
            req = record args.kreq { tck_cnt = min remaining 100_000; tms_val = tms };
            log = args.log;
          }
          d in
      show_progress-Waited args record {
        handles_same = ap handles w.req_kept;
        tdi_same = w.tdi_same;
        edges_more = w.edges_more;
      }

  delay_loop-Waited :
      (fuel : ℕ) (tms : ℤ) (remaining : ℕ) (args args' : Args)
      → IsDistinct (handles args.kreq)
      → delay_loop kernel fuel tms remaining args ≡ some args'
      → Waited tms args args' remaining
  unfolding delay_loop
  delay_loop-Waited zero tms remaining args args' d h = elim (Bool-cases (leb remaining 0)) [
    | inl done ↦
        let zero_left : remaining ≡ 0 = omega tests in
        let same = some-injective _ _ (rw done at h) in
        rw zero_left (subst (λ x. Waited tms args x 0) same (Waited-none tms args))
    | inr more ↦ let never : Path (Option Args) none (some args') = rw more at h in cc
  ]
  delay_loop-Waited (suc fuel) tms remaining args args' d h = elim (Bool-cases (leb remaining 0)) [
    | inl done ↦
        let zero_left : remaining ≡ 0 = omega tests in
        let same = some-injective _ _ (rw done at h) in
        rw zero_left (subst (λ x. Waited tms args x 0) same (Waited-none tms args))
    | inr more ↦
        let k = (ask_delay kernel tms remaining args).io.req.tck_cnt in
        let first = delay_round-Waited tms remaining args d in
        let w =
          svfctl_udelay-Delayed kernel
            record {
              req = record args.kreq { tck_cnt = min remaining 100_000; tms_val = tms };
              log = args.log;
            }
            d in
        let rest =
          delay_loop-Waited fuel tms (remaining - k) (delay_round kernel tms remaining args) args'
            (rw first.handles_same d) (rw more at h) in
        let total : k + (remaining - k) ≡ remaining = omega (arith, w.le_asked) in
        subst (Waited tms args args') total (Waited-add first rest)
  ]

  lines-usleep :
      (hs : Handles) (usecs : ℤ) (log : Log)
      → lines hs (perform kernel (Call.usleep usecs) log) ≡ lines hs log
  unfolding lines
  lines-usleep hs usecs log = elim (Bool-cases (failed (kernel log (Call.usleep usecs)).rc)) [
    | inl bad ↦ rw bad refl
    | inr ok ↦ rw ok refl
  ]

  -- A delay that returns.
  pub cb_play_udelay-Waited :
      (fuel : ℕ) (usecs tms num_tck : ℤ) (args args' : Args)
      → IsDistinct (handles args.kreq)
      → cb_play_udelay kernel fuel usecs tms num_tck args ≡ some args'
      → Waited tms args args' (pos_part num_tck)
  unfolding cb_play_udelay
  cb_play_udelay-Waited fuel usecs tms num_tck args args' d h =
      elim (Bool-cases (ltb 0 (pos_part usecs))) [
        | inl sleeps ↦
            let w = delay_loop-Waited fuel tms (pos_part num_tck) _ args' d (rw sleeps at h) in
            let e = lines-usleep (handles args.kreq) usecs args.log in
            record {
              handles_same = w.handles_same;
              tdi_same = w.tdi_same ∙ ap (λ l. l.tdi) e;
              edges_more = rw e at w.edges_more;
            }
        | inr not ↦ delay_loop-Waited fuel tms (pos_part num_tck) args args' d (rw not at h)
      ]
