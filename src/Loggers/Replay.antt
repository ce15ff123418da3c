-- ===== src/Loggers/Replay.antt =====
-- What the log of boilermon/valvelog/valvelog.c says of the valves when it is read again.
use pi_industrial_robottools.Base.{
  ℕ, suc, ◌-◌, ◌≤◌, ◌≡◌, refl, ap, ◌∙◌, Bool, true, false, List, [], ◌∷◌, ◌++◌, Option, none, some,
  arith, map, set, length, All,
}
use pi_industrial_robottools.Loggers.Valve.{
  Entry, valve, system, read_valves, asserted, edge, scan, any, system_edge, turn, turns, run,
}

-- The valves after the entries of a log, where the first of the list is the valve `base`.
abbrev pub after_entry : ℕ → Entry → List Bool → List Bool
after_entry base (valve now n on) io = set io (n - base) on
after_entry base (system now on) io = io

abbrev pub replay : ℕ → List Entry → List Bool → List Bool
replay base [] io = io
replay base (e ∷ es) io = replay base es (after_entry base e io)

-- The system after the entries of a log.
abbrev pub system_after : Entry → Bool → Bool
system_after (valve now n on) b = b
system_after (system now on) b = on

abbrev pub replay_system : List Entry → Bool → Bool
replay_system [] b = b
replay_system (e ∷ es) b = replay_system es (system_after e b)

abbrev pub IsRead : Option Bool → Type 0
IsRead none = ⊥
IsRead (some val) = Unit

abbrev pub AllRead : List (ℕ × (ℕ → Option (List ℕ))) → Type 0
AllRead [] = Unit
AllRead ((now, files) ∷ rest) = All IsRead (read_valves files) × AllRead rest

-- What the last turn read.
abbrev pub final : List (ℕ × (ℕ → Option (List ℕ))) → List Bool → List Bool
final [] io = io
final ((now, files) ∷ rest) io = final rest (map asserted (read_valves files))

replay-append :
    (base : ℕ) (es fs : List Entry) (io : List Bool)
    → replay base (es ++ fs) io ≡ replay base fs (replay base es io)
replay-append base [] fs io = refl
replay-append base (e ∷ es) fs io = replay-append base es fs (after_entry base e io)

replay_system-append :
    (es fs : List Entry) (b : Bool)
    → replay_system (es ++ fs) b ≡ replay_system fs (replay_system es b)
replay_system-append [] fs b = refl
replay_system-append (e ∷ es) fs b = replay_system-append es fs (system_after e b)

-- Entries of valves from `base` on.
abbrev IsFrom : ℕ → Entry → Type 0
IsFrom base (valve now n on) = base ≤ n
IsFrom base (system now on) = ⊥

replay-tail :
    (base : ℕ) (es : List Entry) (b : Bool) (io : List Bool)
    → All (IsFrom (suc base)) es
    → replay base es (b ∷ io) ≡ b ∷ replay (suc base) es io
replay-tail base [] b io h = refl
replay-tail base (valve now n on ∷ es) b io (le, h) =
    let e : n - base ≡ suc (n - suc base) = omega arith in rw e (replay-tail base es b _ h)
replay-tail base (system now on ∷ es) b io (bad, h) = absurd bad

edge-IsFrom :
    (now n : ℕ) (past : Bool) (val : Option Bool) (base : ℕ)
    → base ≤ n
    → All (IsFrom base) (edge now n past val)
edge-IsFrom now n past none base h = tt
edge-IsFrom now n true (some false) base h = (h, tt)
edge-IsFrom now n false (some true) base h = (h, tt)
edge-IsFrom now n true (some true) base h = tt
edge-IsFrom now n false (some false) base h = tt

All-append : (P : Entry → Type 0) (es fs : List Entry) → All P es → All P fs → All P (es ++ fs)
All-append P [] fs h g = g
All-append P (e ∷ es) fs (x, h) g = (x, All-append P es fs h g)

scan-IsFrom :
    (now n : ℕ) (io : List Bool) (vals : List (Option Bool)) (base : ℕ)
    → base ≤ n
    → All (IsFrom base) (scan now n io vals)
unfolding scan
scan-IsFrom now n [] vals base h = tt
scan-IsFrom now n (p ∷ io) [] base h = tt
scan-IsFrom now n (p ∷ io) (v ∷ vals) base h =
    All-append _ _ _ (edge-IsFrom now n p v base h)
      (scan-IsFrom now (suc n) io vals base (omega arith))

edge-replay :
    (now n : ℕ) (p v : Bool) (io : List Bool) → replay n (edge now n p (some v)) (p ∷ io) ≡ v ∷ io
edge-replay now n true false io = let e : n - n ≡ 0 = omega arith in rw e refl
edge-replay now n false true io = let e : n - n ≡ 0 = omega arith in rw e refl
edge-replay now n true true io = refl
edge-replay now n false false io = refl

replay-scan :
    (now n : ℕ) (io : List Bool) (vals : List (Option Bool))
    → length io ≡ length vals
    → All IsRead vals
    → replay n (scan now n io vals) io ≡ map asserted vals
unfolding scan
replay-scan now n [] [] same h = refl
replay-scan now n [] (v ∷ vals) same h = absurd (omega (arith, same))
replay-scan now n (p ∷ io) [] same h = absurd (omega (arith, same))
replay-scan now n (p ∷ io) (none ∷ vals) same (bad, h) = absurd bad
replay-scan now n (p ∷ io) (some v ∷ vals) same (ok, h) =
    replay-append n (edge now n p (some v)) (scan now (suc n) io vals) (p ∷ io)
    ∙ ap (replay n (scan now (suc n) io vals)) (edge-replay now n p v io)
    ∙ replay-tail n (scan now (suc n) io vals) v io
        (scan-IsFrom now (suc n) io vals (suc n) (omega arith))
    ∙ ap (λ x. v ∷ x) (replay-scan now (suc n) io vals (omega (arith, same)) h)

replay-system_edge :
    (base now : ℕ) (p q : Bool) (io : List Bool) → replay base (system_edge now p q) io ≡ io
replay-system_edge base now true false io = refl
replay-system_edge base now false true io = refl
replay-system_edge base now true true io = refl
replay-system_edge base now false false io = refl

replay-turn :
    (now : ℕ) (vals : List (Option Bool)) (io : List Bool)
    → length io ≡ length vals
    → All IsRead vals
    → replay 1 (turn now vals io).0 io ≡ (turn now vals io).1
unfolding turn
replay-turn now vals io same h =
    replay-append 1 (scan now 1 io vals) (system_edge now (any io) (any (map asserted vals))) io
    ∙ replay-system_edge 1 now (any io) (any (map asserted vals)) (replay 1 (scan now 1 io vals) io)
    ∙ replay-scan now 1 io vals same h

edge-system : (now n : ℕ) (p b : Bool) (v : Option Bool) → replay_system (edge now n p v) b ≡ b
edge-system now n p b none = refl
edge-system now n true b (some false) = refl
edge-system now n false b (some true) = refl
edge-system now n true b (some true) = refl
edge-system now n false b (some false) = refl

scan-system :
    (now n : ℕ) (io : List Bool) (vals : List (Option Bool)) (b : Bool)
    → replay_system (scan now n io vals) b ≡ b
unfolding scan
scan-system now n [] vals b = refl
scan-system now n (p ∷ io) [] b = refl
scan-system now n (p ∷ io) (v ∷ vals) b =
    replay_system-append (edge now n p v) (scan now (suc n) io vals) b
    ∙ ap (replay_system (scan now (suc n) io vals)) (edge-system now n p b v)
    ∙ scan-system now (suc n) io vals b

system_edge-system : (now : ℕ) (p q : Bool) → replay_system (system_edge now p q) p ≡ q
system_edge-system now true false = refl
system_edge-system now false true = refl
system_edge-system now true true = refl
system_edge-system now false false = refl

turn-system :
    (now : ℕ) (vals : List (Option Bool)) (io : List Bool)
    → replay_system (turn now vals io).0 (any io) ≡ any (turn now vals io).1
unfolding turn
turn-system now vals io =
    replay_system-append (scan now 1 io vals) (system_edge now (any io) (any (map asserted vals)))
      (any io)
    ∙ ap (replay_system (system_edge now (any io) (any (map asserted vals))))
        (scan-system now 1 io vals (any io))
    ∙ system_edge-system now (any io) (any (map asserted vals))

-- The valves and the system, as the log gives them, from the turn on.
replay-turns :
    (ts : List (ℕ × (ℕ → Option (List ℕ)))) (io : List Bool)
    → length io ≡ 6
    → AllRead ts
    → replay 1 (turns ts io) io ≡ final ts io
unfolding turns turn
replay-turns [] io six h = refl
replay-turns ((now, files) ∷ rest) io six (ok, h) =
    let vals = read_valves files in
    replay-append 1 (turn now vals io).0 (turns rest (turn now vals io).1) io
    ∙ ap (replay 1 (turns rest (turn now vals io).1)) (replay-turn now vals io six ok)
    ∙ replay-turns rest (map asserted vals) refl h

system-turns :
    (ts : List (ℕ × (ℕ → Option (List ℕ)))) (io : List Bool)
    → replay_system (turns ts io) (any io) ≡ any (final ts io)
unfolding turns turn
system-turns [] io = refl
system-turns ((now, files) ∷ rest) io =
    let vals = read_valves files in
    replay_system-append (turn now vals io).0 (turns rest (turn now vals io).1) (any io)
    ∙ ap (replay_system (turns rest (turn now vals io).1)) (turn-system now vals io)
    ∙ system-turns rest (map asserted vals)

-- If all reads after the first turn succeed, applying the log's entries for the valves, in order,
-- to what the first turn read gives what the last turn read; and applying its entries for the
-- system gives whether any valve is on at the last turn.
pub run_replays :
    (now : ℕ) (files : ℕ → Option (List ℕ)) (ts : List (ℕ × (ℕ → Option (List ℕ))))
    → AllRead ts
    → let io = map asserted (read_valves files) in
      (replay 1 (run ((now, files) ∷ ts)) io ≡ final ts io)
      × (replay_system (run ((now, files) ∷ ts)) (any io) ≡ any (final ts io))
unfolding run
run_replays now files ts h =
    let io = map asserted (read_valves files) in (replay-turns ts io refl h, system-turns ts io)
