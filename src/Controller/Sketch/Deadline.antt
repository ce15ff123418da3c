-- ===== src/Controller/Sketch/Deadline.antt =====
-- What the dead man's switch of slcan_controller.ino depends on, and the step that enforces it.
use pi_industrial_robottools.Base.{
  ℕ, ◌+◌, ◌-◌, ◌%◌, ◌^◌, ◌<◌, ◌≡◌, refl, ◌⊎◌, inl, inr, arith, List, [], ◌∷◌, none, some, ◌==◌,
  if◌then◌else◌, leb, Bool-cases,
}
use pi_industrial_robottools.Controller.Timer.{Timer, elapsed}
use pi_industrial_robottools.Controller.Timer
use pi_industrial_robottools.Controller.Motor.{Motor}
use pi_industrial_robottools.Controller.Motor
use pi_industrial_robottools.Controller.Servo.{Servo}
use pi_industrial_robottools.Controller.Servo
use pi_industrial_robottools.Controller.Can.{Outcome, ignored, called, overrun, input_byte}
use pi_industrial_robottools.Controller.Sketch.{
  Sketch, Arrival, Handler, update_setpoints, react, check_deadline,
}

-- Both bridges are switched off.
pub record IsOff (k : Sketch) : Type 0 where
  pub servo_l : k.board.digital k.ibt2s.enl ≡ 0
  pub servo_r : k.board.digital k.ibt2s.enr ≡ 0
  pub motor_l : k.board.digital k.ibt2m.enl ≡ 0
  pub motor_r : k.board.digital k.ibt2m.enr ≡ 0

-- The enable pins and the deadline of the sketch.
pub record IsWired (k : Sketch) : Type 0 where
  pub servo_enl : k.ibt2s.enl ≡ 8
  pub servo_enr : k.ibt2s.enr ≡ 7
  pub motor_enl : k.ibt2m.enl ≡ 4
  pub motor_enr : k.ibt2m.enr ≡ 2
  pub deadline : k.drives_off.ms ≡ 200

-- The times at which set points were accepted, newest first: frames of four bytes for the callback.
abbrev pub accepts : ℕ → Outcome Handler → List ℕ → List ℕ
accepts now ignored log = log
accepts now overrun log = log
accepts now (called r) log = if r.len == 4 then now ∷ log else log

-- The times of set points that a row of bytes adds.
unfoldable pub accepted : List Arrival → Sketch → List ℕ → List ℕ
accepted [] k log = log
accepted (a ∷ rest) k log =
    let step = input_byte a.stack a.byte k.can in
    let log' = accepts a.time step.1 log in
    elim (react a.time step.1 (record k { can = step.0 })) [
      | none ↦ log'
      | some k' ↦ accepted rest k' log'
    ]

-- The deadline timer counts from the newest set point, or the bridges are off.
pub record IsGuarded (k : Sketch) (log : List ℕ) : Type 0 where
  pub wired : IsWired k
  pub counts : IsOff k ⊎ ((t : ℕ) × (older : List ℕ) × (log ≡ t ∷ older) × (k.drives_off.last ≡ t))

pub update_setpoints-IsGuarded :
    (now len : ℕ) (bytes : List ℕ) (k : Sketch) (log : List ℕ)
    → IsGuarded k log
    → IsGuarded (update_setpoints now bytes len k) (if len == 4 then now ∷ log else log)
unfolding update_setpoints Motor.update Servo.update Timer.reset
update_setpoints-IsGuarded now len bytes k log g = elim (Bool-cases (len == 4)) [
  | inl four ↦
      rw four (record { wired = ground (arith, g.wired); counts = inr (now, log, refl, refl) })
  | inr other ↦ rw other g
]

-- At the time `now`: the bridges are off, or the newest set point is less than 200 ms old.
abbrev pub IsFresh : ℕ → Sketch → List ℕ → Type 0
IsFresh now k log =
    IsOff k ⊎ ((t : ℕ) × (older : List ℕ) × (log ≡ t ∷ older) × ((now + 2 ^ 32 - t) % 2 ^ 32 < 200))

IsFresh-of :
    (now : ℕ) (k : Sketch) (log : List ℕ)
    → IsOff k ⊎ ((t : ℕ) × (older : List ℕ) × (log ≡ t ∷ older) × (k.drives_off.last ≡ t))
    → elapsed now k.drives_off < 200
    → IsFresh now k log
IsFresh-of now k log (inl off) h = inl off
IsFresh-of now k log (inr (t, older, e, l)) h = inr (t, older, e, rw (← l) h)

pub check_deadline-IsGuarded :
    (now : ℕ) (k : Sketch) (log : List ℕ)
    → IsGuarded k log
    → IsGuarded (check_deadline now k) log × IsFresh now (check_deadline now k) log
unfolding check_deadline Timer.timedout Motor.disable Servo.disable
check_deadline-IsGuarded now k log g =
    elim (Bool-cases (leb k.drives_off.ms (elapsed now k.drives_off))) [
      | inl late ↦ rw late (
        record { wired = ground (arith, g.wired); counts = inl (ground (arith, g.wired)) },
        inl (ground (arith, g.wired)),
      )
      | inr early ↦ rw early (g, IsFresh-of now k log g.counts (ground (arith, g.wired)))
    ]
