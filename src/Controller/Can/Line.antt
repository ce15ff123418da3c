-- ===== src/Controller/Can/Line.antt =====
-- The receiver of SLCan.cpp as it is meant: a line buffer, and a parser of complete lines.
use pi_industrial_robottools.Base.{
  ℕ, ◌-◌, ◌*◌, List, [], ◌∷◌, ◌++◌, Option, none, some, length, get_or, ltb, leb, ◌==◌,
  if◌then◌else◌,
}
use pi_industrial_robottools.Controller.Can.{CanRxTab, find_item, hex_to_dec, slc_mtu}
use pi_industrial_robottools.Controller.Can.Decode.{payload}

module _ {ℓ} {A : Type ℓ} where
  abbrev pub parse_item : List ℕ → Option (CanRxTab A) → Option (A × List ℕ)
  parse_item l none = none
  parse_item l (some item) =
      let n = hex_to_dec (get_or l 4 0) in
      if n * 2 == length l - 6 then some (item.cb, payload l 5 n) else none

  -- A line, with its carriage return: `t`, three characters of identifier, a digit for the number of
  -- bytes, and two digits for each byte.
  unfoldable pub parse : List (CanRxTab A) → List ℕ → Option (A × List ℕ)
  parse tab l =
      if ltb (length l) 6
      then none
      else (if get_or l 0 0 == b't' then parse_item l (find_item l tab) else none)

-- A character goes to the end of the line; a line that is too long is dropped.
unfoldable pub extend : List ℕ → ℕ → List ℕ
extend l bi = if leb slc_mtu (length l) then bi ∷ [] else l ++ bi ∷ []

-- The line after a character: a carriage return ends it.
unfoldable pub push : List ℕ → ℕ → List ℕ
push l bi = if bi == 13 then [] else extend l bi
