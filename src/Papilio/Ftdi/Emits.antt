-- ===== src/Papilio/Ftdi/Emits.antt =====
-- What the calls of papilio-prog/ioftdi.cpp make an FTDI chip clock out.
pub mod Tms
pub mod Data
pub mod Steps
pub mod Whole
use pi_industrial_robottools.Base.{
  ℕ, zero, suc, ◌+◌, ◌-◌, ◌*◌, ◌/◌, ◌%◌, ◌^◌, ◌≤◌, ◌<◌, ◌≡◌, refl, ap, ◌∙◌, sym, ◌⊎◌, inl, inr,
  arith, Bool, true, false, not, ◌&&◌, List, [], ◌∷◌, ◌++◌, length, length-append, Option, none,
  some, get_or, ltb, leb, ◌==◌, if◌then◌else◌, Bool-cases, ==_iff,
}
use pi_industrial_robottools.Papilio.Ftdi.{
  Usb, Ftdi, Outcome, ok, io_exception, overrun, ◌>>=◌, tx_buf, send_immediate, mpsse_send, put,
  mpsse_add_cmd, readusb, Reading, read_more,
}
use pi_industrial_robottools.Papilio.Ftdi.Engine.{Engine, idle, Pulse, run, run-append}

-- A chip that takes all that is written to it, in order, and whose reads do not fail: `sent` is all
-- that was written. A read may come short.
pub record Accepts {S : Type 0} (usb : Usb S) (sent : S → List ℕ) : Type 0 where
  pub written : (bs : List ℕ) (s : S) → (usb.write bs s).1 ≡ length bs
  pub grows : (bs : List ℕ) (s : S) → sent (usb.write bs s).0 ≡ sent s ++ bs
  pub keeps : (n : ℕ) (s : S) → sent (usb.read n s).0 ≡ sent s
  pub no_error : (n : ℕ) (s : S) → (usb.read n s).2 ≡ 0

assoc : (xs ys zs : List ℕ) → (xs ++ ys) ++ zs ≡ xs ++ (ys ++ zs)
assoc [] ys zs = refl
assoc (x ∷ xs) ys zs = ap (λ t. x ∷ t) (assoc xs ys zs)

pub append-nil : {A : Type 0} (xs : List A) → xs ++ [] ≡ xs
append-nil [] = refl
append-nil (x ∷ xs) = ap (λ t. x ∷ t) (append-nil xs)

and_false : (b : Bool) → (b && false) ≡ false
and_false true = refl
and_false false = refl

module _ {S : Type 0} (usb : Usb S) (sent : S → List ℕ) where
  -- All bytes for the chip, those that are still in `usbuf` included.
  abbrev pub stream : Ftdi S → List ℕ
  stream c = sent c.device ++ c.usbuf

  -- A call returns something that `P` holds of, keeps `usbuf` in its bounds, and adds commands that
  -- take the engine from `e` to `e'` with the clocks `ps`.
  pub record Emits {A : Type 0} (cable : A → Ftdi S) (P : A → Type 0) (c : Ftdi S) (o : Outcome A)
      (e : Engine) (ps : List Pulse) (e' : Engine) : Type 0 where
    pub after : A
    pub returns : o ≡ ok after
    pub holds : P after
    pub room : length ((cable after).usbuf) ≤ tx_buf
    pub commands : List ℕ
    pub appends : stream (cable after) ≡ stream c ++ commands
    pub runs : run e commands ≡ (e', ps)

  -- Two calls.
  pub Emits-then :
      {A B : Type 0} (f : A → Ftdi S) (P : A → Type 0) (g : B → Ftdi S) (Q : B → Type 0)
      (c : Ftdi S) (o : Outcome A) (k : A → Outcome B) (e e1 e2 : Engine) (ps qs : List Pulse)
      → Emits f P c o e ps e1
      → ((a : A) → P a → length ((f a).usbuf) ≤ tx_buf → Emits g Q (f a) (k a) e1 qs e2)
      → Emits g Q c (o >>= k) e (ps ++ qs) e2
  Emits-then f P g Q c o k e e1 e2 ps qs first next =
      let n = next first.after first.holds first.room in
      record {
        after = n.after;
        returns = rw first.returns n.returns;
        holds = n.holds;
        room = n.room;
        commands = first.commands ++ n.commands;
        appends = n.appends ∙ rw first.appends (assoc (stream c) first.commands n.commands);
        runs = run-append e first.commands n.commands ∙ rw (first.runs, n.runs) refl;
      }

  pub Emits-weaken :
      {A : Type 0} (f : A → Ftdi S) (P Q : A → Type 0) (c : Ftdi S) (o : Outcome A) (e e' : Engine)
      (ps : List Pulse)
      → ((a : A) → P a → Q a)
      → Emits f P c o e ps e'
      → Emits f Q c o e ps e'
  Emits-weaken f P Q c o e e' ps h m = record {
    after = m.after;
    returns = m.returns;
    holds = h m.after m.holds;
    room = m.room;
    commands = m.commands;
    appends = m.appends;
    runs = m.runs;
  }

  -- No call.
  pub done-Emits :
      {A : Type 0} (f : A → Ftdi S) (P : A → Type 0) (a : A) (e : Engine)
      → P a
      → length ((f a).usbuf) ≤ tx_buf
      → Emits f P (f a) (ok a) e [] e
  done-Emits f P a e h room = record {
    after = a;
    returns = refl;
    holds = h;
    room = room;
    commands = [];
    appends = sym (append-nil _);
    runs = refl;
  }

  module _ (law : Accepts usb sent) where
    -- `mpsse_send` changes the place of the bytes only.
    pub mpsse_send-stream :
        (c : Ftdi S)
        → (c' : Ftdi S) × (mpsse_send usb c ≡ ok c')
          × (length (c'.usbuf) ≡ 0)
          × (stream c' ≡ stream c)
    unfolding mpsse_send
    mpsse_send-stream c = elim (Bool-cases (length c.usbuf == 0)) [
      | inl h ↦ (c, rw h refl, ground arith, refl)
      | inr h ↦ (
        record { usbuf = []; device = (usb.write c.usbuf c.device).0 },
        (let e : ((usb.write c.usbuf c.device).1 == length c.usbuf) ≡ true =
              (==_iff _ _).1 (law.written c.usbuf c.device) in
            rw (h, e) refl),
        refl,
        append-nil _ ∙ law.grows c.usbuf c.device,
      )
    ]

    -- With a USB library that takes all that it is given, `mpsse_add_cmd` of no more bytes than
    -- `usbuf` has returns, keeps `usbuf` in its bounds, and puts the bytes behind all those sent
    -- and kept before, so that the engine makes of them what it makes of them alone.
    pub mpsse_add_cmd-Emits :
        (buf : List ℕ) (c : Ftdi S) (e e' : Engine) (ps : List Pulse)
        → length buf ≤ tx_buf
        → run e buf ≡ (e', ps)
        → Emits (λ c. c) (λ c. Unit) c (mpsse_add_cmd usb buf c) e ps e'
    unfolding mpsse_add_cmd put
    mpsse_add_cmd-Emits buf c e e' ps small h =
        elim (Bool-cases (leb tx_buf (length c.usbuf + length buf + 1))) [
          | inl full ↦
              let (c', sends, empty, same) = mpsse_send-stream c in
              let fits : leb (length c'.usbuf + length buf) tx_buf ≡ true =
                ground (arith, empty, small) in
              record {
                after = record c' { usbuf = c'.usbuf ++ buf };
                returns = rw (full, sends, fits) refl;
                holds = tt;
                room = omega (arith, length-append c'.usbuf buf, empty, small);
                commands = buf;
                appends = sym (assoc (sent c'.device) c'.usbuf buf) ∙ ap (λ t. t ++ buf) same;
                runs = h;
              }
          | inr space ↦
              let lt : length c.usbuf + length buf + 1 < tx_buf = ground arith in
              let fits : leb (length c.usbuf + length buf) tx_buf ≡ true = ground arith in
              record {
                after = record c { usbuf = c.usbuf ++ buf };
                returns = rw (space, fits) refl;
                holds = tt;
                room = omega (arith, length-append c.usbuf buf, lt);
                commands = buf;
                appends = sym (assoc (sent c.device) c.usbuf buf);
                runs = h;
              }
        ]

    read_more-keeps :
        (n len : ℕ) (r : Reading S)
        → r.last_errno ≡ 0
        → ((read_more usb n len r).last_errno ≡ 0)
          × (sent (read_more usb n len r).device ≡ sent r.device)
    unfolding read_more
    read_more-keeps zero len r h = (h, refl)
    read_more-keeps (suc n) len r h =
        let m = len - length r.bytes in
        let q = usb.read m r.device in
        let errno : (if length q.1 == 0 then q.2 else 0) ≡ 0 = elim (Bool-cases (length q.1 == 0)) [
          | inl none_read ↦ rw none_read (law.no_error m r.device)
          | inr some_read ↦ rw some_read refl
        ] in
        let next =
          read_more-keeps n len
            (record {
              device = q.0;
              bytes = r.bytes ++ q.1;
              timeout = r.timeout + 1;
              last_errno = if length q.1 == 0 then q.2 else 0;
            })
            errno in
        elim (Bool-cases (ltb (length r.bytes) len)) [
          | inl more ↦ rw more (next.0, next.1 ∙ law.keeps m r.device)
          | inr enough ↦ rw enough (h, refl)
        ]

    -- A read sends what was in `usbuf`, and clocks nothing.
    pub readusb-Emits :
        (len : ℕ) (c : Ftdi S) → Emits (λ r. r.0) (λ r. Unit) c (readusb usb len c) idle [] idle
    unfolding readusb
    readusb-Emits len c =
        Emits-then (λ c. c) (λ c. Unit) (λ r. r.0) (λ r. Unit) c _ _ idle idle idle [] []
          (mpsse_add_cmd-Emits (send_immediate ∷ []) c idle idle [] (omega arith) refl)
          (λ c u fits.
            (let (c', sends, empty, same) = mpsse_send-stream c in
              let q = usb.read len c'.device in
              let start : Reading S = record {
                device = q.0;
                bytes = q.1;
                timeout = 0;
                last_errno = 0;
              } in
              let (errno, keeps) = read_more-keeps 100 len start refl in
              let r = read_more usb 100 len start in
              record {
                after = (record c' { device = r.device }, r.bytes);
                returns = rw (sends, errno, and_false (leb 50 r.timeout)) refl;
                holds = tt;
                room = omega (arith, empty);
                commands = [];
                appends = rw (keeps, law.keeps len c'.device) (same ∙ sym (append-nil _));
                runs = refl;
              }))
