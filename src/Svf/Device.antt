-- ===== src/Svf/Device.antt =====
-- What the device on the JTAG lines sees of a play of svfload/svfload.c: the clocks that libxsvf
-- asks for.
use mathlib.Core.Option.{some-injective}
use mathlib.Core.List.{append-nil, append_assoc}
use pi_industrial_robottools.Base.{
  ℕ, ◌≡◌, refl, sym, ap, ◌∙◌, subst, inl, inr, Bool, List, [], ◌∷◌, ◌++◌, Option, none, some, ltb,
  if◌then◌else◌, arith, replicate, Bool-cases, Option-cases,
}
use pi_industrial_robottools.Base.Int.{ℤ, pos_part}
use pi_industrial_robottools.Svf.Gpio.{
  Call, Log, Kernel, Wiring, Io, failed, negative, line_value, perform, pin_reconf, svfctl_fini,
}
use pi_industrial_robottools.Svf.Wave.{Edge, Handles, handles, lines, IsDistinct}
use pi_industrial_robottools.Svf.Pulse.{svfctl_pulse-Pulsed}
use pi_industrial_robottools.Svf.Rounds.{Waited, cb_play_udelay-Waited}
use pi_industrial_robottools.Svf.Working.{IsWorking, svfctl_pulse_works}
use pi_industrial_robottools.Svf.Player.{
  Args, show_progress, cb_play_udelay, cb_play_pulse_tck, cb_verbose_play_pulse_tck, cb_get_byte,
  cb_play_shutdown, cb_report_device,
}
use pi_industrial_robottools.Svf.Program.{
  Callback, Script, finish, call, Host, dispatch, run, play_host,
}
use pi_industrial_robottools.Svf.Library.{IsBody}

-- The edges that a callback asks for, when TDI stands at `tdi`, and where it leaves TDI.
abbrev pub wanted : Callback → ℕ → List Edge
wanted (Callback.udelay usecs tms num_tck) tdi =
    replicate (pos_part num_tck) (record { tms = line_value tms; tdi = tdi })
wanted (Callback.pulse_tck tms v tdo rmask sync) tdi =
    record { tms = line_value tms; tdi = if negative v then tdi else line_value v } ∷ []
wanted _ tdi = []

abbrev pub tdi_after : Callback → ℕ → ℕ
tdi_after (Callback.pulse_tck tms v tdo rmask sync) tdi = if negative v then tdi else line_value v
tdi_after _ tdi = tdi

unfoldable pub wanted_all : List Callback → ℕ → List Edge
wanted_all [] tdi = []
wanted_all (c ∷ cs) tdi = wanted c tdi ++ wanted_all cs (tdi_after c tdi)

-- The callbacks that a script makes of a host, in order.
unfoldable pub asked : (ℕ → ℤ) → Host → Script → Args → List Callback
asked char h (finish rc) args = []
asked char h (call c k) args = elim (dispatch char h c args) [
  | none ↦ c ∷ []
  | some (r, next) ↦ c ∷ asked char h (k r) next
]

-- From one state to the other the handles stay, and the device sees these edges.
pub record Driven (args args' : Args) (es : List Edge) (tdi : ℕ) : Type 0 where
  pub handles_same : handles args'.kreq ≡ handles args.kreq
  pub tdi_left : (lines (handles args.kreq) args'.log).tdi ≡ tdi
  pub edges_more :
      (lines (handles args.kreq) args'.log).edges ≡ (lines (handles args.kreq) args.log).edges ++ es

abbrev pub tdi_of : Args → ℕ
tdi_of args = (lines (handles args.kreq) args.log).tdi

Driven-add :
    {a b c : Args} {es fs : List Edge} {t u : ℕ}
    → Driven a b es t
    → Driven b c fs u
    → Driven a c (es ++ fs) u
Driven-add {es = es} {fs = fs} h g = record {
  handles_same = g.handles_same ∙ h.handles_same;
  tdi_left = rw h.handles_same at g.tdi_left;
  edges_more = let e = rw h.handles_same at g.edges_more in rw (e, h.edges_more, append_assoc) refl;
}

Driven-none :
    (a b : Args)
    → handles b.kreq ≡ handles a.kreq
    → lines (handles a.kreq) b.log ≡ lines (handles a.kreq) a.log
    → Driven a b [] (tdi_of a)
Driven-none a b same e = record {
  handles_same = same;
  tdi_left = rw e refl;
  edges_more = rw e (sym (append-nil _));
}

answered :
    {b x next : Args} {q r : ℤ} {es : List Edge} {t : ℕ}
    → Path (Option (ℤ × Args)) (some (q, x)) (some (r, next))
    → Driven b x es t
    → Driven b next es t
answered {b} {es = es} {t = t} e d =
    subst (λ y. Driven b y es t) (ap (λ p. p.1) (some-injective _ _ e)) d

Waited-Driven :
    {tms : ℤ} {b x : Args} {k : ℕ}
    → Waited tms b x k
    → Driven b x (replicate k (record { tms = line_value tms; tdi = tdi_of b })) (tdi_of b)
Waited-Driven w = record {
  handles_same = w.handles_same;
  tdi_left = w.tdi_same;
  edges_more = w.edges_more;
}

get_byte_io :
    (char : ℕ → ℤ) (b : Args)
    → ((cb_get_byte char b).1.kreq ≡ b.kreq) × ((cb_get_byte char b).1.log ≡ b.log)
unfolding cb_get_byte
get_byte_io char b = ground arith

getbyte-Driven : (char : ℕ → ℤ) (b : Args) → Driven b (cb_get_byte char b).1 [] (tdi_of b)
getbyte-Driven char b =
    let (same, log) = get_byte_io char b in
    Driven-none b (cb_get_byte char b).1 (ap handles same) (ap (lines (handles b.kreq)) log)

module _ (kernel : Kernel) where
  lines-set_config :
      (hs : Handles) (fd : ℕ) (input : Bool) (log : Log)
      → lines hs (perform kernel (Call.set_config fd input) log) ≡ lines hs log
  unfolding lines
  lines-set_config hs fd input log =
      elim (Bool-cases (failed (kernel log (Call.set_config fd input)).rc)) [
        | inl bad ↦ rw bad refl
        | inr ok ↦ rw ok refl
      ]

  lines-close :
      (hs : Handles) (fd : ℤ) (log : Log)
      → lines hs (perform kernel (Call.close fd) log) ≡ lines hs log
  unfolding lines
  lines-close hs fd log = elim (Bool-cases (failed (kernel log (Call.close fd)).rc)) [
    | inl bad ↦ rw bad refl
    | inr ok ↦ rw ok refl
  ]

  shutdown-Driven : (b : Args) → Driven b (cb_play_shutdown kernel b).1 [] (tdi_of b)
  unfolding cb_play_shutdown svfctl_fini pin_reconf
  shutdown-Driven b = Driven-none b (cb_play_shutdown kernel b).1 refl (
      lines-close _ _ _
      ∙ lines-close _ _ _
      ∙ lines-close _ _ _
      ∙ lines-close _ _ _
      ∙ lines-set_config _ _ _ _
      ∙ lines-set_config _ _ _ _
      ∙ lines-set_config _ _ _ _)

  progress-Driven :
      {a b : Args} {es : List Edge} {t : ℕ} → Driven a b es t → Driven a (show_progress b) es t
  unfolding show_progress
  progress-Driven {a} {b} d = elim (Bool-cases (ltb b.tck_count b.tck_compare)) [
    | inl early ↦ rw early d
    | inr due ↦
        rw due
          record { handles_same = d.handles_same; tdi_left = d.tdi_left; edges_more = d.edges_more }
  ]

  pulse-Driven :
      (tms v tdo rmask sync : ℤ) (b : Args)
      → IsWorking kernel
      → IsDistinct (handles b.kreq)
      → let c = Callback.pulse_tck tms v tdo rmask sync in
        Driven b
          (cb_verbose_play_pulse_tck kernel tms v tdo b).1
          (wanted c (tdi_of b))
          (tdi_after c (tdi_of b))
  unfolding cb_verbose_play_pulse_tck cb_play_pulse_tck
  pulse-Driven tms v tdo rmask sync b w d =
      let io : Io = record {
        req = record b.kreq { tdi_val = v; tdo_val = tdo; tms_val = tms };
        log = b.log;
      } in
      let p = svfctl_pulse-Pulsed kernel io d (svfctl_pulse_works kernel w io) in
      progress-Driven record {
        handles_same = ap handles p.tdo_read.1;
        tdi_left = p.tdi_left;
        edges_more = p.edges_more;
      }

  module _ (w : IsWorking kernel) (char : ℕ → ℤ) (wiring : Wiring) (fuel : ℕ) where
    abbrev player : Host
    player = play_host kernel wiring fuel

    step-Driven :
        (c : Callback) (k : ℤ → Script) (b next : Args) (r : ℤ)
        → IsBody (call c k)
        → IsDistinct (handles b.kreq)
        → dispatch char player c b ≡ some (r, next)
        → Driven b next (wanted c (tdi_of b)) (tdi_after c (tdi_of b))
    unfolding IsBody cb_report_device
    step-Driven Callback.setup k b next r body d e = absurd body.0
    step-Driven Callback.shutdown k b next r body d e = answered e (shutdown-Driven b)
    step-Driven (Callback.udelay usecs tms num_tck) k b next r body d e =
        elim (Option-cases (cb_play_udelay kernel fuel usecs tms num_tck b)) [
          | inl stuck ↦
              let never : Path (Option (ℤ × Args)) none (some (r, next)) = rw stuck at e in cc
          | inr (x, ended) ↦
              let waited = cb_play_udelay-Waited kernel fuel usecs tms num_tck b x d ended in
              answered (rw ended at e) (Waited-Driven waited)
        ]
    step-Driven (Callback.pulse_tck tms v tdo rmask sync) k b next r body d e =
        answered e (pulse-Driven tms v tdo rmask sync b w d)
    step-Driven Callback.getbyte k b next r body d e = answered e (getbyte-Driven char b)
    step-Driven Callback.report_error k b next r body d e = answered e (Driven-none b b refl refl)
    step-Driven (Callback.set_frequency freq) k b next r body d e =
        answered e (Driven-none b b refl refl)
    step-Driven (Callback.report_device idcode) k b next r body d e =
        answered e (Driven-none b (cb_report_device idcode b) refl refl)

    asked_step :
        (c : Callback) (k : ℤ → Script) (b next : Args) (r : ℤ)
        → dispatch char player c b ≡ some (r, next)
        → asked char player (call c k) b ≡ c ∷ asked char player (k r) next
    unfolding asked
    asked_step c k b next r answers = rw (answers, asked) refl

    -- When the library's part of a play after the setup ends, the rising edges of TCK that the
    -- device has seen of it are, in order, those that the callbacks made by the library ask for:
    -- one for each pulse and as many as each delay says, each with its level of TMS and with the
    -- newest level of TDI that was asked for. The kernel sets and reads its lines without an
    -- error, the handles of the three outputs differ, and the library obeys its interface.
    pub run-edges :
        (s : Script) (b b' : Args) (rc : ℤ)
        → IsBody s
        → IsDistinct (handles b.kreq)
        → run char player s b ≡ some (rc, b')
        → (lines (handles b.kreq) b'.log).edges
          ≡ (lines (handles b.kreq) b.log).edges ++ wanted_all (asked char player s b) (tdi_of b)
    unfolding run wanted_all IsBody asked
    run-edges (finish _) b b' rc body d e =
        rw (ap (λ p. p.1.log) (sym (some-injective _ _ e))) (sym (append-nil _))
    run-edges (call c k) b b' rc body d e = elim (Option-cases (dispatch char player c b)) [
      | inl stuck ↦
          let never : Path (Option (ℤ × Args)) none (some (rc, b')) = rw (stuck, run) at e in cc
      | inr ((r, next), answers) ↦
          let first = step-Driven c k b next r body d answers in
          let rest =
            run-edges (k r) next b' rc (body.1 r) (rw first.handles_same d)
              (rw (answers, run) at e) in
          let stands : tdi_of next ≡ tdi_after c (tdi_of b) =
            rw (first.handles_same, tdi_of) first.tdi_left in
          let here =
            subst
              (λ t.
                (lines (handles next.kreq) b'.log).edges
                ≡ (lines (handles next.kreq) next.log).edges
                  ++ wanted_all (asked char player (k r) next) t)
              stands rest in
          let onward = rw (first.handles_same, first.edges_more) at here in
          subst
            (λ cs.
              (lines (handles b.kreq) b'.log).edges
              ≡ (lines (handles b.kreq) b.log).edges ++ wanted_all cs (tdi_of b))
            (sym (asked_step c k b next r answers))
            (onward
              ∙ append_assoc (lines (handles b.kreq) b.log).edges (wanted c (tdi_of b))
                  (wanted_all (asked char player (k r) next) (tdi_after c (tdi_of b))))
    ]
