-- ===== src/Svf/Edges.antt =====
-- How many times TCK rises in the operations of svfload/svfload.c, with what levels of TMS and TDI,
-- whatever call of the kernel fails.
use pi_industrial_robottools.Base.{
  ℕ, zero, suc, ◌+◌, ◌-◌, ◌≤◌, ◌≡◌, refl, sym, ap, ◌∙◌, subst, inl, inr, true, false, [], ◌∷◌, ◌++◌,
  arith, replicate, replicate-add, Bool-cases,
}
use mathlib.Core.List.{append-nil, append_assoc}
use pi_industrial_robottools.Base.Int.{pos}
use pi_industrial_robottools.Svf.Gpio.{
  Log, Kernel, Io, Out, failed, ◌>>◌, pin_set, set_tck, toggle, toggle_all,
}
use pi_industrial_robottools.Svf.Wave.{
  Handles, handles, lines, IsDistinct, set_line_tck, bind_ok, bind_failed, bind_first, bind_last,
  pin_set-ok, pin_set-failed,
}

-- From one log to the other TMS and TDI keep their levels, and TCK rises `k` times.
pub record Clocked (hs : Handles) (log log' : Log) (k : ℕ) : Type 0 where
  pub tms_same : (lines hs log').tms ≡ (lines hs log).tms
  pub tdi_same : (lines hs log').tdi ≡ (lines hs log).tdi
  pub edges_more :
      (lines hs log').edges
      ≡ (lines hs log).edges
        ++ replicate k (record { tms = (lines hs log).tms; tdi = (lines hs log).tdi })

pub Clocked-none :
    (hs : Handles) (log log' : Log) → lines hs log' ≡ lines hs log → Clocked hs log log' 0
Clocked-none req log log' h = record {
  tms_same = rw h refl;
  tdi_same = rw h refl;
  edges_more = rw h (sym (append-nil _));
}

pub Clocked-add :
    {hs : Handles} {a b c : Log} {k j : ℕ}
    → Clocked hs a b k
    → Clocked hs b c j
    → Clocked hs a c (k + j)
Clocked-add {k = k} {j = j} h g = record {
  tms_same = g.tms_same ∙ h.tms_same;
  tdi_same = g.tdi_same ∙ h.tdi_same;
  edges_more =
      rw (g.edges_more, h.tms_same, h.tdi_same, h.edges_more, append_assoc, replicate-add k j _)
        refl;
}

module _ (kernel : Kernel) where
  set_tck-low_ok :
      (io : Io)
      → IsDistinct (handles io.req)
      → failed (set_tck kernel (pos 0) io).res ≡ false
      → lines (handles io.req) (set_tck kernel (pos 0) io).io.log
        ≡ record (lines (handles io.req) io.log) { tck = 0 }
  set_tck-low_ok io d h =
      pin_set-ok kernel (handles io.req) io.req.tck_fd (pos 0) io h
      ∙ set_line_tck (handles io.req) 0 (lines (handles io.req) io.log) d

  set_tck-Clocked_low :
      (io : Io)
      → IsDistinct (handles io.req)
      → Clocked (handles io.req) io.log (set_tck kernel (pos 0) io).io.log 0
  set_tck-Clocked_low io d = elim (Bool-cases (failed (set_tck kernel (pos 0) io).res)) [
    | inl bad ↦
        Clocked-none _ _ _ (pin_set-failed kernel (handles io.req) io.req.tck_fd (pos 0) io bad)
    | inr ok ↦
        let e = set_tck-low_ok io d ok in
        record {
          tms_same = rw e refl;
          tdi_same = rw e refl;
          edges_more = rw e (sym (append-nil _));
        }
  ]

  set_tck-high_ok :
      (io : Io)
      → IsDistinct (handles io.req)
      → (lines (handles io.req) io.log).tck ≡ 0
      → failed (set_tck kernel (pos 1) io).res ≡ false
      → lines (handles io.req) (set_tck kernel (pos 1) io).io.log
        ≡ record (lines (handles io.req) io.log) {
          tck = 1;
          edges =
              (lines (handles io.req) io.log).edges
              ++ (record {
                tms = (lines (handles io.req) io.log).tms;
                tdi = (lines (handles io.req) io.log).tdi;
              }
                  ∷ []);
        }
  set_tck-high_ok io d low h =
      rw (pin_set-ok kernel (handles io.req) io.req.tck_fd (pos 1) io h)
        (rw (set_line_tck (handles io.req) 1 (lines (handles io.req) io.log) d) (rw low refl))

  set_tck-Clocked_high :
      (io : Io)
      → IsDistinct (handles io.req)
      → (lines (handles io.req) io.log).tck ≡ 0
      → failed (set_tck kernel (pos 1) io).res ≡ false
      → Clocked (handles io.req) io.log (set_tck kernel (pos 1) io).io.log 1
  set_tck-Clocked_high io d low h =
      let e = set_tck-high_ok io d low h in
      record { tms_same = rw e refl; tdi_same = rw e refl; edges_more = rw e refl }

  toggle-req : (io : Io) → (toggle kernel io).io.req ≡ io.req
  unfolding toggle ◌>>◌ pin_set
  toggle-req io = ground arith

  toggle-Clocked_ok :
      (io : Io)
      → IsDistinct (handles io.req)
      → failed (toggle kernel io).res ≡ false
      → Clocked (handles io.req) io.log (toggle kernel io).io.log 1
  unfolding toggle pin_set
  toggle-Clocked_ok io d h =
      let r = set_tck kernel (pos 0) io in
      let ok = bind_first r (set_tck kernel (pos 1)) h in
      rw (bind_ok r (set_tck kernel (pos 1)) ok) (
        Clocked-add (set_tck-Clocked_low io d) (
          set_tck-Clocked_high r.io d (ap (λ l. l.tck) (set_tck-low_ok io d ok))
            (bind_last r (set_tck kernel (pos 1)) h)))

  toggle-Clocked-failed :
      (io : Io)
      → IsDistinct (handles io.req)
      → failed (toggle kernel io).res ≡ true
      → Clocked (handles io.req) io.log (toggle kernel io).io.log 0
  unfolding toggle pin_set
  toggle-Clocked-failed io d h =
      let r = set_tck kernel (pos 0) io in
      elim (Bool-cases (failed r.res)) [
        | inl bad ↦ rw (bind_failed r (set_tck kernel (pos 1)) bad) (set_tck-Clocked_low io d)
        | inr ok ↦ rw (bind_ok r (set_tck kernel (pos 1)) ok) (
            Clocked-add (set_tck-Clocked_low io d) (
              Clocked-none _ _ _ (
                pin_set-failed kernel (handles io.req) io.req.tck_fd (pos 1) r.io
                  (subst (λ o. failed o.res ≡ true) (bind_ok r (set_tck kernel (pos 1)) ok) h))))
      ]

  -- What the loop does from `n` on: it counts the edges that it makes.
  pub record Toggled (left n : ℕ) (io : Io) (r : Out × ℕ) : Type 0 where
    pub n_le : n ≤ r.1
    pub le_left : r.1 ≤ n + left
    pub complete : failed r.0.res ≡ false → r.1 ≡ n + left
    pub req_same : r.0.io.req ≡ io.req
    pub clocked : Clocked (handles io.req) io.log r.0.io.log (r.1 - n)

  pub toggle_all-Toggled :
      (left n : ℕ) (io : Io)
      → IsDistinct (handles io.req)
      → Toggled left n io (toggle_all kernel left n io)
  unfolding toggle_all
  toggle_all-Toggled zero n io d = record {
    n_le = omega arith;
    le_left = omega arith;
    complete = λ _. omega arith;
    req_same = refl;
    clocked = let e : n - n ≡ 0 = omega arith in rw e (Clocked-none _ _ _ refl);
  }
  toggle_all-Toggled (suc left) n io d =
      let r = toggle kernel io in
      let same = toggle-req io in
      let rest = toggle_all-Toggled left (suc n) r.io (rw same d) in
      elim (Bool-cases (failed r.res)) [
        | inl bad ↦ rw bad record {
          n_le = omega arith;
          le_left = omega arith;
          complete = λ ok. cc;
          req_same = same;
          clocked = let e : n - n ≡ 0 = omega arith in rw e (toggle-Clocked-failed io d bad);
        }
        | inr ok ↦ rw ok record {
          n_le = omega (arith, rest.n_le);
          le_left = omega (arith, rest.le_left);
          complete = λ h. omega (arith, rest.complete h);
          req_same = rest.req_same ∙ same;
          clocked =
              let m = (toggle_all kernel left (suc n) r.io).1 in
              let count : 1 + (m - suc n) ≡ m - n = omega (arith, rest.n_le) in
              subst
                (λ k.
                  Clocked (handles io.req) io.log (toggle_all kernel left (suc n) r.io).0.io.log k)
                count
                (Clocked-add (toggle-Clocked_ok io d ok) (
                  subst
                    (λ q.
                      Clocked (handles q) r.io.log (toggle_all kernel left (suc n) r.io).0.io.log
                        (m - suc n))
                    same rest.clocked));
        }
      ]
