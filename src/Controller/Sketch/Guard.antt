-- ===== src/Controller/Sketch/Guard.antt =====
-- The dead man's switch of slcan_controller.ino over whole runs: without set points the drives are
-- switched off.
use mathlib.Core.Option.{some-injective}
use pi_industrial_robottools.Base.{
  subst, ℕ, ◌≡◌, refl, ap, inl, List, [], ◌∷◌, Option, none, some, ◌==◌, if◌then◌else◌,
}
use pi_industrial_robottools.Controller.Board.{Board}
use pi_industrial_robottools.Controller.Timer.{Timer, elapsed}
use pi_industrial_robottools.Controller.Timer
use pi_industrial_robottools.Controller.Motor.{Motor}
use pi_industrial_robottools.Controller.Motor
use pi_industrial_robottools.Controller.Servo.{Servo}
use pi_industrial_robottools.Controller.Servo
use pi_industrial_robottools.Controller.Can.{Outcome, ignored, called, overrun, input_byte}
use pi_industrial_robottools.Controller.Sketch.{
  Sketch, Arrival, Turn, Handler, update_servo_setpoint, update_setpoints, react, poll_can,
  check_deadline, run_servo, finish_turn, finish, loop, construct, setup,
}
use pi_industrial_robottools.Controller.Sketch.Deadline.{
  IsGuarded, IsFresh, accepts, accepted, update_setpoints-IsGuarded, check_deadline-IsGuarded,
}
use pi_industrial_robottools.Controller.Sketch.Same.{
  SameDrives-IsGuarded, SameDrives-can, SameDrives-IsFresh, run_servo-SameDrives,
  send_telemetry-SameDrives,
}

call-IsGuarded :
    (now : ℕ) (o : Outcome Handler) (k k' : Sketch) (log : List ℕ)
    → IsGuarded k log
    → react now o k ≡ some k'
    → IsGuarded k' (accepts now o log)
call-IsGuarded now ignored k k' log g e = subst (λ q. IsGuarded q log) (some-injective _ _ e) g
call-IsGuarded now overrun k k' log g e = cc
call-IsGuarded now (called r) k k' log g e =
    subst (λ q. IsGuarded q (if r.len == 4 then now ∷ log else log)) (some-injective _ _ e)
      (by_handler r.cb)
  where
    by_handler :
        (h : Handler)
        → IsGuarded
            (elim h [ update_servo_setpoint ↦ update_setpoints now r.bytes r.len k ])
            (if r.len == 4 then now ∷ log else log)
    by_handler update_servo_setpoint = update_setpoints-IsGuarded now r.len r.bytes k log g

-- One byte, given the claim about the bytes after it.
arrival-IsGuarded :
    (a : Arrival) (rest : List Arrival) (o : Outcome Handler) (k k' : Sketch) (log : List ℕ)
    → ((q : Sketch) (log' : List ℕ)
        → IsGuarded q log'
        → poll_can rest q ≡ some k'
        → IsGuarded k' (accepted rest q log'))
    → IsGuarded k log
    → (next : Option Sketch) → react a.time o k ≡ next
    → elim next [ none ↦ none | some q ↦ poll_can rest q ] ≡ some k'
    → IsGuarded k' (elim next [
      | none ↦ accepts a.time o log
      | some q ↦ accepted rest q (accepts a.time o log)
    ])
arrival-IsGuarded a rest o k k' log ih g none n e = cc
arrival-IsGuarded a rest o k k' log ih g (some q) n e =
    ih q (accepts a.time o log) (call-IsGuarded a.time o k q log g n) e

poll_can-IsGuarded :
    (arrivals : List Arrival) (k k' : Sketch) (log : List ℕ)
    → IsGuarded k log
    → poll_can arrivals k ≡ some k'
    → IsGuarded k' (accepted arrivals k log)
unfolding poll_can accepted
poll_can-IsGuarded [] k k' log g e = subst (λ q. IsGuarded q log) (some-injective _ _ e) g
poll_can-IsGuarded (a ∷ rest) k k' log g e =
    let step = input_byte a.stack a.byte k.can in
    let k1 : Sketch = record k { can = step.0 } in
    arrival-IsGuarded a rest step.1 k1 k' log
      (λ q log' g' e'. poll_can-IsGuarded rest q k' log' g' e')
      (SameDrives-IsGuarded (SameDrives-can k step.0) g) (react a.time step.1 k1) refl e

finish_turn-IsFresh :
    (t : Turn) (k : Sketch) (log : List ℕ)
    → IsGuarded k log
    → IsGuarded (finish_turn t k).0 log × IsFresh t.deadline_time (finish_turn t k).0 log
unfolding finish_turn
finish_turn-IsFresh t k log g =
    let k1 = check_deadline t.deadline_time k in
    let k2 = run_servo t.servo_time t.adc k1 in
    let c = check_deadline-IsGuarded t.deadline_time k log g in
    let s1 = run_servo-SameDrives t.servo_time t.adc k1 in
    let s2 = send_telemetry-SameDrives t.send_time t.space k2 in
    (
      SameDrives-IsGuarded s2 (SameDrives-IsGuarded s1 c.0),
      SameDrives-IsFresh t.deadline_time log s2 (SameDrives-IsFresh t.deadline_time log s1 c.1),
    )

finish-IsFresh :
    (t : Turn) (m : Option Sketch) (k' : Sketch) (sent log : List ℕ)
    → ((k : Sketch) → m ≡ some k → IsGuarded k log)
    → finish t m ≡ some (k', sent)
    → IsGuarded k' log × IsFresh t.deadline_time k' log
finish-IsFresh t none k' sent log g e = cc
finish-IsFresh t (some k) k' sent log g e =
    let e' : (finish_turn t k).0 ≡ k' = ap (λ p. p.0) (some-injective _ _ e) in
    subst (λ q. IsGuarded q log × IsFresh t.deadline_time q log) e'
      (finish_turn-IsFresh t k log (g k refl))

-- After each turn of `loop`: the bridges are off, or the newest set point is less than 200 ms old.
pub loop-IsFresh :
    (t : Turn) (k k' : Sketch) (sent log : List ℕ)
    → IsGuarded k log
    → loop t k ≡ some (k', sent)
    → IsGuarded k' (accepted t.arrivals k log)
      × IsFresh t.deadline_time k' (accepted t.arrivals k log)
unfolding loop
loop-IsFresh t k k' sent log g e =
    finish-IsFresh t (poll_can t.arrivals k) k' sent (accepted t.arrivals k log)
      (λ q h. poll_can-IsGuarded t.arrivals k q log g h) e

setup-IsGuarded : (now : ℕ) (b : Board) → IsGuarded (setup (construct now b)) []
unfolding setup construct Servo.init Motor.init Servo.init_pins Motor.init_pins Servo.clamp
    Servo.set_trim Motor.clamp Timer.init
setup-IsGuarded now b = record {
  wired = record {
    servo_enl = refl;
    servo_enr = refl;
    motor_enl = refl;
    motor_enr = refl;
    deadline = refl;
  };
  counts = inl (record { servo_l = refl; servo_r = refl; motor_l = refl; motor_r = refl });
}

-- The states that the sketch reaches: power-up and `setup`, then any turns of `loop`. The list holds
-- the times of the set points accepted so far, newest first.
pub data Runs : Sketch → List ℕ → Type 0 where
  start : (now : ℕ) (b : Board) → Runs (setup (construct now b)) []
  turn :
      {k : Sketch} {log : List ℕ} (t : Turn) (k' : Sketch) (sent : List ℕ)
      → Runs k log
      → loop t k ≡ some (k', sent)
      → Runs k' (accepted t.arrivals k log)

Runs-IsGuarded : {k : Sketch} {log : List ℕ} → Runs k log → IsGuarded k log
Runs-IsGuarded (start now b) = setup-IsGuarded now b
Runs-IsGuarded (turn {k} {log} t k' sent r e) =
    (loop-IsFresh t k k' sent log (Runs-IsGuarded r) e).0

-- In every state that the sketch reaches, and after every further turn of `loop` that returns:
-- all enable pins of the two bridges are low, or a set point was accepted, and the newest one is
-- less than 200 ms old at the time when the turn asked the deadline timer. Times are read from a
-- 32-bit counter that wraps.
pub Runs-IsFresh :
    (t : Turn) (k k' : Sketch) (sent log : List ℕ)
    → Runs k log
    → loop t k ≡ some (k', sent)
    → IsFresh t.deadline_time k' (accepted t.arrivals k log)
Runs-IsFresh t k k' sent log r e = (loop-IsFresh t k k' sent log (Runs-IsGuarded r) e).1
