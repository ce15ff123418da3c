-- ===== src/Svf/Aligned.antt =====
-- The two passes of `main_play` of svfload/svfload.c, callback by callback: where they stand at the
-- same byte with the same count, they do so afterwards.
use mathlib.Core.Option.{some-injective}
use pi_industrial_robottools.Base.{
  ℕ, ◌+◌, ◌^◌, ◌<◌, ◌≡◌, refl, sym, ap, ◌∙◌, subst, inl, inr, true, false, Option, none, some, leb,
  arith, Bool-cases, Option-cases, length,
}
use pi_industrial_robottools.Base.Int.{ℤ, pos, negsuc, pos_part}
use pi_industrial_robottools.Svf.Gpio.{Kernel, failed, negative}
use pi_industrial_robottools.Svf.Player.{
  Args, u64, cb_get_byte, cb_play_shutdown, cb_report_device, cb_analyze_udelay,
  cb_analyze_pulse_tck,
}
use pi_industrial_robottools.Svf.Program.{Script, finish, call, Host, dispatch, run}
use pi_industrial_robottools.Svf.Library.{Fails, IsChecked}
use pi_industrial_robottools.Svf.Count.{Counted}

-- The two passes stand at the same byte of the same file, with the same count.
pub record Aligned (a b : Args) : Type 0 where
  pub data_same : a.svf_data ≡ b.svf_data
  pub ptr_same : a.svf_data_ptr ≡ b.svf_data_ptr
  pub count_same : a.tck_total ≡ b.tck_count
  pub small : b.tck_count < 2 ^ 64

pub run-Fails :
    (char : ℕ → ℤ) (h : Host) (s : Script) (b b' : Args) (rc : ℤ)
    → Fails s
    → run char h s b ≡ some (rc, b')
    → failed rc ≡ true
unfolding run Fails
run-Fails char h (finish rc') b b' rc f e =
    subst (λ r. failed r ≡ true) (ap (λ p. p.0) (some-injective _ _ e)) f
run-Fails char h (call c k) b b' rc f e = elim (Option-cases (dispatch char h c b)) [
  | inl stuck ↦
      let never : Path (Option (ℤ × Args)) none (some (rc, b')) = rw (stuck, run) at e in cc
  | inr (p, answers) ↦ run-Fails char h (k p.0) p.1 b' rc (f p.0) (rw (answers, run) at e)
]

-- A script that goes on after an answer that is read for its sign alone goes on in the same way
-- after another that is not negative.
pub resume :
    (char : ℕ → ℤ) (h : Host) (k : ℤ → Script) (q r : ℤ) (b b' : Args) (rc : ℤ)
    → IsChecked k
    → negative q ≡ false
    → failed rc ≡ false
    → run char h (k r) b ≡ some (rc, b')
    → run char h (k q) b ≡ some (rc, b')
resume char h k q r b b' rc c nq ok e = elim (Bool-cases (negative r)) [
  | inl bad ↦ let wrong = run-Fails char h (k r) b b' rc (c.negative_fails r bad) e in cc
  | inr good ↦ subst (λ s. run char h s b ≡ some (rc, b')) (c.sign_only r q good nq) e
]

pub Counted-Aligned :
    {a b b1 : Args} {n : ℕ}
    → Aligned a b
    → Counted b b1 n
    → Aligned (record a { tck_total = u64 (a.tck_total + n) }) b1
Counted-Aligned {a} {b} {b1} {n} al c = record {
  data_same = al.data_same ∙ sym c.data_same;
  ptr_same = al.ptr_same ∙ sym c.ptr_same;
  count_same = ap (λ x. u64 (x + n)) al.count_same ∙ sym c.count_more;
  small = omega (arith, c.count_more);
}

pub delay_total :
    (usecs tms num_tck : ℤ) (a : Args)
    → negative num_tck ≡ false
    → record a { tck_total = u64 (a.tck_total + pos_part num_tck) }
      ≡ cb_analyze_udelay usecs tms num_tck a
unfolding cb_analyze_udelay
delay_total usecs tms (pos n) a h =
    let e : u64 (a.tck_total + n) ≡ u64 (a.tck_total + u64 n) = omega arith in
    ap (λ t. record a { tck_total = t }) e
delay_total usecs tms (negsuc n) a h = ground arith

pub analyze_answer :
    (tms tdi tdo : ℤ) (a : Args) → negative (cb_analyze_pulse_tck tms tdi tdo a).0 ≡ false
unfolding cb_analyze_pulse_tck
analyze_answer tms tdi tdo a = ground arith

pub shutdown-Aligned :
    (kernel : Kernel) {a b : Args} → Aligned a b → Aligned a (cb_play_shutdown kernel b).1
unfolding cb_play_shutdown
shutdown-Aligned kernel al = record {
  data_same = al.data_same;
  ptr_same = al.ptr_same;
  count_same = al.count_same;
  small = al.small;
}

pub shutdown_total :
    (kernel : Kernel) (b : Args) → (cb_play_shutdown kernel b).1.tck_total ≡ b.tck_total
unfolding cb_play_shutdown
shutdown_total kernel b = refl

pub report-Aligned :
    (idcode : ℕ) {a b : Args}
    → Aligned a b
    → Aligned (cb_report_device idcode a) (cb_report_device idcode b)
unfolding cb_report_device
report-Aligned idcode al = record {
  data_same = al.data_same;
  ptr_same = al.ptr_same;
  count_same = al.count_same;
  small = al.small;
}

pub report_total : (idcode : ℕ) (b : Args) → (cb_report_device idcode b).tck_total ≡ b.tck_total
unfolding cb_report_device
report_total idcode b = refl

pub getbyte-Aligned :
    (char : ℕ → ℤ) {a b : Args}
    → Aligned a b
    → ((cb_get_byte char b).0 ≡ (cb_get_byte char a).0)
      × Aligned (cb_get_byte char a).1 (cb_get_byte char b).1
      × ((cb_get_byte char b).1.tck_total ≡ b.tck_total)
unfolding cb_get_byte
getbyte-Aligned char {a} {b} al = elim (Bool-cases (leb (length b.svf_data) b.svf_data_ptr)) [
  | inl ended ↦
      rw (al.data_same, al.ptr_same, ended)
        (
          refl,
          record {
            data_same = refl;
            ptr_same = refl;
            count_same = al.count_same;
            small = al.small;
          },
          refl,
        )
  | inr more ↦
      rw (al.data_same, al.ptr_same, more)
        (
          refl,
          record {
            data_same = refl;
            ptr_same = refl;
            count_same = al.count_same;
            small = al.small;
          },
          refl,
        )
]

-- What the analysis leaves as it is: the file, and the hardware.
pub record Kept (a a' : Args) : Type 0 where
  pub data_same : a'.svf_data ≡ a.svf_data
  pub log_same : a'.log ≡ a.log

pub get_byte-Kept : (char : ℕ → ℤ) (a : Args) → Kept a (cb_get_byte char a).1
unfolding cb_get_byte
get_byte-Kept char a = ground arith
