-- ===== src/Loggers/Tests.antt =====
-- Runs of the loggers on concrete readings: boilermon/valvelog and pulsemeter/waterlog.
use pi_industrial_robottools.Base.{
  ℕ, ◌≡◌, refl, true, false, List, [], ◌∷◌, Option, some, none, map, if◌then◌else◌, ◌==◌,
}
use pi_industrial_robottools.Loggers.Valve.{
  Entry, read_input, read_valves, asserted, any, scan, turn, turns, run,
}
use pi_industrial_robottools.Loggers.Replay.{replay, replay_system, final, AllRead, run_replays}
use pi_industrial_robottools.Loggers.Water.{log_water}
use pi_industrial_robottools.Loggers.Flow.{
  total, newest, total_received, newest_received, log_water_accounts,
}

-- All valves closed, the third open, and the third's file gone.
abbrev closed : ℕ → Option (List ℕ)
closed io = some (b'1' ∷ 10 ∷ [])

abbrev third : ℕ → Option (List ℕ)
third io = if io == 3 then some (b'0' ∷ 10 ∷ []) else some (b'1' ∷ 10 ∷ [])

abbrev gone : ℕ → Option (List ℕ)
gone io = if io == 3 then none else some (b'1' ∷ 10 ∷ [])

abbrev day : List (ℕ × (ℕ → Option (List ℕ)))
day = (101, third) ∷ (102, third) ∷ (103, closed) ∷ []

day_log :
    run ((100, closed) ∷ day)
    ≡ Entry.valve 101 3 true
      ∷ Entry.system 101 true
      ∷ Entry.valve 103 3 false
      ∷ Entry.system 103 false
      ∷ []
unfolding run turns turn scan read_input
day_log = refl

day-AllRead : AllRead day
unfolding read_input
day-AllRead = (
  (tt, (tt, (tt, (tt, (tt, (tt, tt)))))),
  ((tt, (tt, (tt, (tt, (tt, (tt, tt)))))), ((tt, (tt, (tt, (tt, (tt, (tt, tt)))))), tt)),
)

run_replays_example :
    (replay 1 (run ((100, closed) ∷ day)) (map asserted (read_valves closed))
      ≡ final day (map asserted (read_valves closed)))
    × (replay_system (run ((100, closed) ∷ day)) (any (map asserted (read_valves closed)))
        ≡ any (final day (map asserted (read_valves closed))))
run_replays_example = run_replays 100 closed day day-AllRead

-- A read that fails for one turn makes the log say twice that the valve was turned on.
twice_on :
    run ((100, closed) ∷ (101, third) ∷ (102, gone) ∷ (103, third) ∷ [])
    ≡ Entry.valve 101 3 true
      ∷ Entry.system 101 true
      ∷ Entry.system 102 false
      ∷ Entry.valve 103 3 true
      ∷ Entry.system 103 true
      ∷ []
unfolding run turns turn scan read_input
twice_on = refl

-- Two counts, a broken chain, and no flow.
abbrev transfers : List (Option ℕ × ℕ)
transfers = (some 3203334400, 10) ∷ (some 3203334912, 20) ∷ (none, 30) ∷ (some 3203334144, 40) ∷ []

transfers_log : map (λ l. l.count) (log_water transfers 0) ≡ 1 ∷ 3 ∷ 0 ∷ []
unfolding log_water
transfers_log = refl

log_water_accounts_example :
    (total (log_water transfers 0) ≡ total_received transfers)
    × (newest (log_water transfers 0) 0 ≡ newest_received transfers 0)
log_water_accounts_example = log_water_accounts transfers 0
