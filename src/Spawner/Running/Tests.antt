-- ===== src/Spawner/Running/Tests.antt =====
-- The counter in a run of three goroutines.
use launce.Base.{◌≡◌, ◌%◌, ◌^◌, refl, List, [], ◌∷◌}
use launce.Spawner.Running.{begin, spawn, enter, exit, count, Move, spawns, enters, exits, moves}
use launce.Spawner.Running.Counted.{count_running, count-moves}

-- The first goroutine ends before the third one begins.
abbrev ms : List Move
ms = spawns ∷ spawns ∷ enters 0 ∷ enters 1 ∷ exits 0 ∷ exits 0 ∷ spawns ∷ enters 2 ∷ []

ms_test : count (moves begin ms) ≡ 2
unfolding moves spawn enter exit
ms_test = refl

count-moves_example : count (moves begin ms) ≡ count_running (moves begin ms).goroutines % 2 ^ 64
count-moves_example = count-moves ms
