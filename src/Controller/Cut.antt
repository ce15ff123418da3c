-- ===== src/Controller/Cut.antt =====
-- An integer cut to limits on the two sides of 0, as the drivers of arduino/slcan_controller cut
-- their set points: the size of each side is cut by the limit of its side.
use Prim.Native.Nat.{min}
use pi_industrial_robottools.Base.{◌≡◌, if◌then◌else◌, arith}
use pi_industrial_robottools.Base.Int.{ℤ, pos, ◌≤ℤ◌, ltb_ℤ, pos_part, neg_part}

pub cut_parts :
    (lo hi x : ℤ)
    → lo ≤ℤ pos 0
    → pos 0 ≤ℤ hi
    → let y = if ltb_ℤ x lo then lo else x in
      let z = if ltb_ℤ hi y then hi else y in
      (neg_part z ≡ min (neg_part lo) (neg_part x)) × (pos_part z ≡ min (pos_part hi) (pos_part x))
cut_parts lo hi x l h = ground arith
