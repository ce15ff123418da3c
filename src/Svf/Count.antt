-- ===== src/Svf/Count.antt =====
-- svfload/svfload.c: how the callbacks of the play count the clocks.
use pi_industrial_robottools.Base.{
  ℕ, zero, suc, ◌+◌, ◌-◌, ◌^◌, ◌≤◌, ◌<◌, ◌≡◌, refl, sym, ap, ◌∙◌, inl, inr, none, some, ltb, leb,
  arith, tests, Bool-cases,
}
use Prim.Native.Nat.{min}
use mathlib.Core.Option.{some-injective}
use pi_industrial_robottools.Base.Int.{ℤ, pos_part}
use pi_industrial_robottools.Svf.Gpio.{Kernel, Io, set_tms, toggle, toggle_all, svfctl_udelay}
use pi_industrial_robottools.Svf.Player.{
  Args, u64, show_progress, ask_delay, delay_round, delay_loop, cb_play_udelay, cb_play_pulse_tck,
  cb_verbose_play_pulse_tck,
}

-- What the play leaves as it is, and its count.
pub record Counted (args args' : Args) (n : ℕ) : Type 0 where
  pub count_more : args'.tck_count ≡ u64 (args.tck_count + n)
  pub total_same : args'.tck_total ≡ args.tck_total
  pub data_same : args'.svf_data ≡ args.svf_data
  pub ptr_same : args'.svf_data_ptr ≡ args.svf_data_ptr

module _ (kernel : Kernel) where
  toggle_all_le : (left n : ℕ) (io : Io) → (toggle_all kernel left n io).1 ≤ n + left
  unfolding toggle_all
  toggle_all_le zero n io = omega arith
  toggle_all_le (suc left) n io = ground (arith, toggle_all_le left (suc n) (toggle kernel io).io)

  svfctl_udelay_le : (io : Io) → (svfctl_udelay kernel io).io.req.tck_cnt ≤ io.req.tck_cnt
  unfolding svfctl_udelay
  svfctl_udelay_le io = ground (arith, toggle_all_le io.req.tck_cnt 0 (set_tms kernel io).io)

  show_progress-Counted :
      (args : Args) {args' : Args} {n : ℕ}
      → Counted args args' n
      → Counted args (show_progress args') n
  unfolding show_progress
  show_progress-Counted args {args'} c = elim (Bool-cases (ltb args'.tck_count args'.tck_compare)) [
    | inl early ↦ rw early c
    | inr due ↦ rw due record {
      count_more = c.count_more;
      total_same = c.total_same;
      data_same = c.data_same;
      ptr_same = c.ptr_same;
    }
  ]

  delay_round-Counted :
      (tms : ℤ) (remaining : ℕ) (args : Args)
      → Counted args
          (delay_round kernel tms remaining args)
          (ask_delay kernel tms remaining args).io.req.tck_cnt
  delay_round-Counted tms remaining args =
      show_progress-Counted args
        record { count_more = refl; total_same = refl; data_same = refl; ptr_same = refl }

  Counted-none : (args args' : Args) → args.tck_count < 2 ^ 64 → args ≡ args' → Counted args args' 0
  Counted-none args args' small e = record {
    count_more = rw (sym e) (omega arith);
    total_same = ap (λ a. a.tck_total) (sym e);
    data_same = ap (λ a. a.svf_data) (sym e);
    ptr_same = ap (λ a. a.svf_data_ptr) (sym e);
  }

  -- A delay that returns has made the count larger by what it was asked for.
  delay_loop-Counted :
      (fuel : ℕ) (tms : ℤ) (remaining : ℕ) (args args' : Args)
      → args.tck_count < 2 ^ 64
      → delay_loop kernel fuel tms remaining args ≡ some args'
      → Counted args args' remaining
  unfolding delay_loop
  delay_loop-Counted zero tms remaining args args' small h = elim (Bool-cases (leb remaining 0)) [
    | inl done ↦
        let zero_left : remaining ≡ 0 = omega tests in
        rw zero_left (Counted-none args args' small (some-injective _ _ (rw done at h)))
    | inr more ↦ let never : none ≡ some args' = rw more at h in cc
  ]
  delay_loop-Counted (suc fuel) tms remaining args args' small h =
      elim (Bool-cases (leb remaining 0)) [
        | inl done ↦
            let zero_left : remaining ≡ 0 = omega tests in
            rw zero_left (Counted-none args args' small (some-injective _ _ (rw done at h)))
        | inr more ↦
            let r = ask_delay kernel tms remaining args in
            let next = delay_round kernel tms remaining args in
            let step = delay_round-Counted tms remaining args in
            let rest =
              delay_loop-Counted fuel tms (remaining - r.io.req.tck_cnt) next args'
                (omega (arith, step.count_more)) (rw more at h) in
            let le = svfctl_udelay_le record {
              req = record args.kreq { tck_cnt = min remaining 100_000; tms_val = tms };
              log = args.log;
            } in
            record {
              count_more = omega (arith, step.count_more, rest.count_more, le);
              total_same = rest.total_same ∙ step.total_same;
              data_same = rest.data_same ∙ step.data_same;
              ptr_same = rest.ptr_same ∙ step.ptr_same;
            }
      ]

  pub pulse-Counted :
      (tms tdi tdo : ℤ) (args : Args)
      → Counted args (cb_verbose_play_pulse_tck kernel tms tdi tdo args).1 1
  unfolding cb_verbose_play_pulse_tck cb_play_pulse_tck
  pulse-Counted tms tdi tdo args =
      show_progress-Counted args
        record { count_more = refl; total_same = refl; data_same = refl; ptr_same = refl }

  pub cb_play_udelay-Counted :
      (fuel : ℕ) (usecs tms num_tck : ℤ) (args args' : Args)
      → args.tck_count < 2 ^ 64
      → cb_play_udelay kernel fuel usecs tms num_tck args ≡ some args'
      → Counted args args' (pos_part num_tck)
  unfolding cb_play_udelay
  cb_play_udelay-Counted fuel usecs tms num_tck args args' small h =
      elim (Bool-cases (ltb 0 (pos_part usecs))) [
        | inl sleeps ↦
            let c = delay_loop-Counted fuel tms (pos_part num_tck) _ args' small (rw sleeps at h) in
            record {
              count_more = c.count_more;
              total_same = c.total_same;
              data_same = c.data_same;
              ptr_same = c.ptr_same;
            }
        | inr not ↦ delay_loop-Counted fuel tms (pos_part num_tck) args args' small (rw not at h)
      ]
