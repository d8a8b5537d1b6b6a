-- ===== src/Generator/SpawnFunc/Tests.antt =====
-- The theorem on the reports of a spawned user at concrete turns.
use launce.Base.{◌≡◌, refl, true, false, none, some, List, [], ◌∷◌, take}
use launce.User.{Round, other, stop_user}
use launce.Generator.SpawnFunc.{spawn_func}
use launce.Generator.SpawnFunc.Reported.{before_last, errors_of, spawn_func_lem}

-- Two errors, a stop, and an error that is never returned.
abbrev turns : List Round
turns =
    record { ctx_done = false; process = none }
    ∷ record { ctx_done = false; process = some (other 4) }
    ∷ record { ctx_done = false; process = some (other 5) }
    ∷ record { ctx_done = false; process = some stop_user }
    ∷ record { ctx_done = false; process = some (other 6) }
    ∷ []

errors-turns : errors_of (before_last turns) ≡ other 4 ∷ other 5 ∷ []
unfolding errors_of before_last
errors-turns = refl

spawn_func_lem_example :
    (spawn_func (some true) none none turns ≡ some (errors_of (before_last turns)))
    × (spawn_func (some false) none none turns ≡ some (take 1 (errors_of (before_last turns))))
spawn_func_lem_example = spawn_func_lem turns
