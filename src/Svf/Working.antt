-- ===== src/Svf/Working.antt =====
-- svfload/svfload.c on a kernel that sets and reads its lines without an error.
use pi_industrial_robottools.Base.{
  ℕ, zero, suc, ◌*◌, ◌≤◌, ◌≡◌, refl, inl, inr, true, false, some, leb, arith, Bool-cases,
}
use Prim.Native.Nat.{min}
use pi_industrial_robottools.Base.Int.{ℤ, pos}
use pi_industrial_robottools.Svf.Gpio.{
  Call, Log, Kernel, Io, Out, failed, negative, ◌>>◌, pin_set, set_tms, set_tdi, set_tck, get_tdo,
  toggle, toggle_all, svfctl_udelay, svfctl_pulse,
}
use pi_industrial_robottools.Svf.Wave.{handles, IsDistinct, bind_ok}
use pi_industrial_robottools.Svf.Delay.{svfctl_udelay-Delayed}
use pi_industrial_robottools.Svf.Rounds.{delay_round-Waited}
use pi_industrial_robottools.Svf.Player.{Args, ask_delay, delay_round, delay_loop}

pub record IsWorking (kernel : Kernel) : Type 0 where
  pub sets : (log : Log) (fd v : ℕ) → failed (kernel log (Call.set_line_values fd v)).rc ≡ false
  pub gets : (log : Log) (fd : ℕ) → failed (kernel log (Call.get_line_values fd)).rc ≡ false

bind_works :
    (r : Out) (f : Io → Out)
    → failed r.res ≡ false
    → failed (f r.io).res ≡ false
    → failed (r >> f).res ≡ false
bind_works r f ok next = rw (bind_ok r f ok) next

module _ (kernel : Kernel) (w : IsWorking kernel) where
  pin_set_works : (fd : ℕ) (val : ℤ) (io : Io) → failed (pin_set kernel fd val io).res ≡ false
  unfolding pin_set
  pin_set_works fd val io = w.sets io.log fd _

  set_tdi_works : (io : Io) → failed (set_tdi kernel io).res ≡ false
  set_tdi_works io = elim (Bool-cases (negative io.req.tdi_val)) [
    | inl skip ↦ rw skip refl
    | inr sent ↦ rw sent (pin_set_works io.req.tdi_fd io.req.tdi_val io)
  ]

  get_tdo_works : (io : Io) → failed (get_tdo kernel io).res ≡ false
  unfolding get_tdo
  get_tdo_works io = ground (arith, w.gets io.log io.req.tdo_fd)

  toggle_works : (io : Io) → failed (toggle kernel io).res ≡ false
  unfolding toggle
  toggle_works io =
      bind_works _ (set_tck kernel (pos 1)) (pin_set_works _ _ _) (pin_set_works _ _ _)

  pub svfctl_pulse_works : (io : Io) → failed (svfctl_pulse kernel io).res ≡ false
  unfolding svfctl_pulse
  svfctl_pulse_works io =
      bind_works _ (get_tdo kernel)
        (bind_works _ (set_tck kernel (pos 1))
          (bind_works _ (set_tck kernel (pos 0))
            (bind_works _ (set_tdi kernel) (pin_set_works _ _ _) (set_tdi_works _))
            (pin_set_works _ _ _))
          (pin_set_works _ _ _))
        (get_tdo_works _)

  toggle_all_works : (left n : ℕ) (io : Io) → failed (toggle_all kernel left n io).0.res ≡ false
  unfolding toggle_all
  toggle_all_works zero n io = refl
  toggle_all_works (suc left) n io =
      rw (toggle_works io) (toggle_all_works left (suc n) (toggle kernel io).io)

  svfctl_udelay_works : (io : Io) → failed (svfctl_udelay kernel io).res ≡ false
  unfolding svfctl_udelay
  svfctl_udelay_works io = elim (Bool-cases (leb io.req.tck_cnt 0)) [
    | inl idle ↦ rw idle refl
    | inr busy ↦
        rw (busy, pin_set_works io.req.tms_fd io.req.tms_val io)
          (toggle_all_works io.req.tck_cnt 0 (set_tms kernel io).io)
  ]

  ask_delay_works :
      (tms : ℤ) (remaining : ℕ) (args : Args)
      → IsDistinct (handles args.kreq)
      → (ask_delay kernel tms remaining args).io.req.tck_cnt ≡ min remaining 100_000
  ask_delay_works tms remaining args d =
      (svfctl_udelay-Delayed kernel _ d).complete (svfctl_udelay_works _)

  -- The rounds that a delay needs.
  pub delay_loop_ends :
      (fuel : ℕ) (tms : ℤ) (remaining : ℕ) (args : Args)
      → IsDistinct (handles args.kreq)
      → remaining ≤ fuel * 100_000
      → (args' : Args) × (delay_loop kernel fuel tms remaining args ≡ some args')
  unfolding delay_loop
  delay_loop_ends zero tms remaining args d enough =
      let e : leb remaining 0 ≡ true = ground arith in (args, rw e refl)
  delay_loop_ends (suc fuel) tms remaining args d enough = elim (Bool-cases (leb remaining 0)) [
    | inl done ↦ (args, rw done refl)
    | inr more ↦
        let next = delay_round kernel tms remaining args in
        let count = ask_delay_works tms remaining args d in
        let step = delay_round-Waited kernel tms remaining args d in
        rw more (delay_loop_ends fuel tms _ next (rw step.handles_same d) (omega (arith, count)))
  ]
