-- ===== src/Stream/Joystick.antt =====
-- controlstream/joystick-input.c. SDL and the network are not part of the repository: SDL's events
-- are a list, and the loop yields the datagrams that it writes.
use pi_industrial_robottools.Base.{ℕ, ◌/◌, ◌%◌, List, [], ◌∷◌, ◌==◌, if◌then◌else◌, arith}
use pi_industrial_robottools.Base.Int.{ℤ, pos, negsuc, quot, neg_ℤ, ltb_ℤ, ◌≤ℤ◌}
use pi_industrial_robottools.Base.Word.{int16, IsInt16, bits16, int16_fits}

pub data SdlEvent : Type 0 where
  user_event : SdlEvent
  quit : SdlEvent
  axis_motion : ℕ → ℤ → SdlEvent
  other : SdlEvent

pub record Sticks : Type 0 where
  pub steering_position : ℤ
  pub throttle_position : ℤ

abbrev pub centred : Sticks
centred = record { steering_position = pos 0; throttle_position = pos 0 }

abbrev pub at_least : ℤ → ℤ → ℤ
at_least lo v = if ltb_ℤ v lo then lo else v

abbrev pub at_most : ℤ → ℤ → ℤ
at_most hi v = if ltb_ℤ hi v then hi else v

unfoldable pub steer : ℤ → ℤ
steer value = quot (at_least (negsuc 510) (int16 (quot value 64))) 3

unfoldable pub accelerate : ℤ → ℤ
accelerate value = at_most (pos 511) (int16 (neg_ℤ (quot value 64)))

-- `SDL_JOYAXISMOTION`
unfoldable pub move : ℕ → ℤ → Sticks → Sticks
move axis value s =
    let steered = if axis == 2 then record s { steering_position = steer value } else s in
    if axis == 1 then record steered { throttle_position = accelerate value } else steered

-- `send_socketcan`: the four bytes that it writes.
unfoldable pub send_socketcan : ℤ → ℤ → List ℕ
send_socketcan throttle steering =
    bits16 throttle / 256 % 256
    ∷ bits16 throttle % 256
    ∷ bits16 steering / 256 % 256
    ∷ bits16 steering % 256
    ∷ []

-- The loop over SDL's events, which a quit ends.
unfoldable pub loop : List SdlEvent → Sticks → List (List ℕ)
loop [] s = []
loop (user_event ∷ es) s = send_socketcan s.throttle_position s.steering_position ∷ loop es s
loop (quit ∷ es) s = []
loop (axis_motion axis value ∷ es) s = loop es (move axis value s)
loop (other ∷ es) s = loop es s

-- The positions that axis motions, whose values are 16-bit integers, lead to.
pub data Reached : Sticks → Type 0 where
  begun : Reached centred
  moved :
      {s : Sticks} (axis : ℕ) (value : ℤ) → IsInt16 value → Reached s → Reached (move axis value s)

pub record IsBounded (s : Sticks) : Type 0 where
  pub steering_range : (negsuc 169 ≤ℤ s.steering_position) × (s.steering_position ≤ℤ pos 170)
  pub throttle_range : (negsuc 510 ≤ℤ s.throttle_position) × (s.throttle_position ≤ℤ pos 511)

steer_within : (v : ℤ) → IsInt16 v → (negsuc 169 ≤ℤ steer v) × (steer v ≤ℤ pos 170)
unfolding steer quot
steer_within v h = ground (arith, int16_fits (quot v 64))

accelerate_within : (v : ℤ) → IsInt16 v → (negsuc 510 ≤ℤ accelerate v) × (accelerate v ≤ℤ pos 511)
unfolding accelerate quot neg_ℤ
accelerate_within v h = ground (arith, int16_fits (neg_ℤ (quot v 64)))

-- What the joystick reaches.
pub Reached-IsBounded_sticks : {s : Sticks} → Reached s → IsBounded s
unfolding move
Reached-IsBounded_sticks begun = record {
  steering_range = omega arith;
  throttle_range = omega arith;
}
Reached-IsBounded_sticks (moved axis value h r) =
    let b = Reached-IsBounded_sticks r in
    ground
      (arith, steer_within value h, accelerate_within value h, b.steering_range, b.throttle_range)
