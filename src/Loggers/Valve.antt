-- ===== src/Loggers/Valve.antt =====
-- boilermon/valvelog/valvelog.c: `read_input` and the loop of `main`. The files of the inputs, the
-- timer and the clock are not part of the repository: `files` gives what can be read of the file of
-- an input, and a turn of the loop is given the time. The valves' bits of `io_past` and `io_prst`
-- are a list of six.
use pi_industrial_robottools.Base.{
  ℕ, suc, Bool, true, false, ◌||◌, List, [], ◌∷◌, ◌++◌, Option, none, some, ltb, ◌==◌,
  if◌then◌else◌, map,
}

-- `read_input`: what it reads of the file begins with the input's level, which is low when it is
-- asserted. A result below 0 is `none`.
unfoldable pub read_input : (ℕ → Option (List ℕ)) → ℕ → Option Bool
read_input files io = if ltb 7 io then none else elim (files io) [
  | none ↦ none
  | some text ↦ elim text [ [] ↦ none | v ∷ rest ↦ some (v == b'0') ]
]

abbrev pub read_valves : (ℕ → Option (List ℕ)) → List (Option Bool)
read_valves files =
    read_input files 1
    ∷ read_input files 2
    ∷ read_input files 3
    ∷ read_input files 4
    ∷ read_input files 5
    ∷ read_input files 6
    ∷ []

-- A line of the log.
pub data Entry : Type 0 where
  valve : ℕ → ℕ → Bool → Entry
  system : ℕ → Bool → Entry

-- The bit of `io_prst`: clear when the read fails.
abbrev pub asserted : Option Bool → Bool
asserted none = false
asserted (some val) = val

-- The edge detection, which a failed read skips.
abbrev pub edge : ℕ → ℕ → Bool → Option Bool → List Entry
edge now n past none = []
edge now n true (some false) = valve now n false ∷ []
edge now n false (some true) = valve now n true ∷ []
edge now n past (some val) = []

-- The loop over the valves from `n` on, with what it logs.
unfoldable pub scan : ℕ → ℕ → List Bool → List (Option Bool) → List Entry
scan now n (past ∷ io_past) (val ∷ vals) = edge now n past val ++ scan now (suc n) io_past vals
scan now n _ _ = []

-- `io != 0`
abbrev pub any : List Bool → Bool
any [] = false
any (b ∷ bs) = b || any bs

abbrev pub system_edge : ℕ → Bool → Bool → List Entry
system_edge now true false = system now false ∷ []
system_edge now false true = system now true ∷ []
system_edge now past prst = []

-- A turn of the loop after the first.
unfoldable pub turn : ℕ → List (Option Bool) → List Bool → List Entry × List Bool
turn now vals io_past =
    let io_prst = map asserted vals in
    (scan now 1 io_past vals ++ system_edge now (any io_past) (any io_prst), io_prst)

-- The loop: the first turn only reads.
unfoldable pub turns : List (ℕ × (ℕ → Option (List ℕ))) → List Bool → List Entry
turns [] io_past = []
turns ((now, files) ∷ rest) io_past =
    let (log, io_prst) = turn now (read_valves files) io_past in log ++ turns rest io_prst

unfoldable pub run : List (ℕ × (ℕ → Option (List ℕ))) → List Entry
run [] = []
run ((now, files) ∷ rest) = turns rest (map asserted (read_valves files))
