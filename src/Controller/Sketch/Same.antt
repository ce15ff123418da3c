-- ===== src/Controller/Sketch/Same.antt =====
-- The parts of `loop` of slcan_controller.ino that leave the enable pins and the deadline alone.
use pi_industrial_robottools.Base.{
  ℕ, ◌≡◌, refl, ap, ◌∙◌, ◌⊎◌, inl, inr, arith, List, ◌∷◌, Bool-cases,
}
use pi_industrial_robottools.Base.Int.{ℤ}
use pi_industrial_robottools.Controller.Board.{Board, perform_all, perform_all-append}
use pi_industrial_robottools.Controller.Timer.{Timer, elapsed}
use pi_industrial_robottools.Controller.Timer
use pi_industrial_robottools.Controller.Motor.{Motor}
use pi_industrial_robottools.Controller.Motor
use pi_industrial_robottools.Controller.Servo.{Servo}
use pi_industrial_robottools.Controller.Servo
use pi_industrial_robottools.Controller.Can.{SlCan}
use pi_industrial_robottools.Controller.Sketch.{Handler, Sketch, run_servo, send_telemetry}
use pi_industrial_robottools.Controller.Sketch.Deadline.{IsOff, IsGuarded, IsFresh}

-- What the deadline is about is the same in both states.
pub record SameDrives (k k' : Sketch) : Type 0 where
  pub digital : k'.board.digital ≡ k.board.digital
  pub servo_enl : k'.ibt2s.enl ≡ k.ibt2s.enl
  pub servo_enr : k'.ibt2s.enr ≡ k.ibt2s.enr
  pub motor_enl : k'.ibt2m.enl ≡ k.ibt2m.enl
  pub motor_enr : k'.ibt2m.enr ≡ k.ibt2m.enr
  pub timer : k'.drives_off ≡ k.drives_off

pub SameDrives-can : (k : Sketch) (c : SlCan Handler) → SameDrives k (record k { can = c })
SameDrives-can k c = record {
  digital = refl;
  servo_enl = refl;
  servo_enr = refl;
  motor_enl = refl;
  motor_enr = refl;
  timer = refl;
}

SameDrives-IsOff : {k k' : Sketch} → SameDrives k k' → IsOff k → IsOff k'
SameDrives-IsOff s o = record {
  servo_l = rw (s.digital, s.servo_enl) o.servo_l;
  servo_r = rw (s.digital, s.servo_enr) o.servo_r;
  motor_l = rw (s.digital, s.motor_enl) o.motor_l;
  motor_r = rw (s.digital, s.motor_enr) o.motor_r;
}

pub SameDrives-IsGuarded :
    {k k' : Sketch} {log : List ℕ} → SameDrives k k' → IsGuarded k log → IsGuarded k' log
SameDrives-IsGuarded {k} {k'} {log} s g = record {
  wired = record {
    servo_enl = s.servo_enl ∙ g.wired.servo_enl;
    servo_enr = s.servo_enr ∙ g.wired.servo_enr;
    motor_enl = s.motor_enl ∙ g.wired.motor_enl;
    motor_enr = s.motor_enr ∙ g.wired.motor_enr;
    deadline = ap (λ t. t.ms) s.timer ∙ g.wired.deadline;
  };
  counts = go g.counts;
}
  where
    go :
        IsOff k ⊎ ((t : ℕ) × (older : List ℕ) × (log ≡ t ∷ older) × (k.drives_off.last ≡ t))
        → IsOff k' ⊎ ((t : ℕ) × (older : List ℕ) × (log ≡ t ∷ older) × (k'.drives_off.last ≡ t))
    go (inl off) = inl (SameDrives-IsOff s off)
    go (inr (t, older, e, l)) = inr (t, older, e, ap (λ u. u.last) s.timer ∙ l)

pub SameDrives-IsFresh :
    {k k' : Sketch} (now : ℕ) (log : List ℕ)
    → SameDrives k k'
    → IsFresh now k log
    → IsFresh now k' log
SameDrives-IsFresh now log s (inl off) = inl (SameDrives-IsOff s off)
SameDrives-IsFresh now log s (inr f) = inr f

motor_drive-digital :
    (e : ℤ) (m : Motor) (b : Board) → (perform_all b (Motor.drive e m)).digital ≡ b.digital
unfolding Motor.drive
motor_drive-digital e m b = ground arith

servo_drive-digital :
    (e : ℤ) (s : Servo) (b : Board) → (perform_all b (Servo.drive e s)).digital ≡ b.digital
unfolding Servo.drive
servo_drive-digital e s b = ground arith

pub run_servo-SameDrives : (now adc : ℕ) (k : Sketch) → SameDrives k (run_servo now adc k)
unfolding run_servo Servo.tick Motor.tick
run_servo-SameDrives now adc k = elim (Bool-cases (Timer.timedout now k.servo).1) [
  | inl due ↦ rw due (record {
    digital =
        ap (λ b. b.digital)
          (perform_all-append k.board (Servo.tick adc k.ibt2s).1 (Motor.tick k.ibt2m).1)
        ∙ motor_drive-digital _ _ _
        ∙ servo_drive-digital _ _ _;
    servo_enl = refl;
    servo_enr = refl;
    motor_enl = refl;
    motor_enr = refl;
    timer = refl;
  })
  | inr early ↦ rw early (record {
    digital = refl;
    servo_enl = refl;
    servo_enr = refl;
    motor_enl = refl;
    motor_enr = refl;
    timer = refl;
  })
]

pub send_telemetry-SameDrives :
    (now space : ℕ) (k : Sketch) → SameDrives k (send_telemetry now space k).0
unfolding send_telemetry
send_telemetry-SameDrives now space k = elim (Bool-cases (Timer.timedout now k.tsend).1) [
  | inl due ↦ rw due (record {
    digital = refl;
    servo_enl = refl;
    servo_enr = refl;
    motor_enl = refl;
    motor_enr = refl;
    timer = refl;
  })
  | inr early ↦ rw early (record {
    digital = refl;
    servo_enl = refl;
    servo_enr = refl;
    motor_enl = refl;
    motor_enr = refl;
    timer = refl;
  })
]
