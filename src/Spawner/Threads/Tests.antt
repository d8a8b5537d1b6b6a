-- ===== src/Spawner/Threads/Tests.antt =====
-- The theorems on spawner/thread.go at concrete inputs.
use launce.Base.{◌≡◌, refl, List, [], ◌∷◌}
use launce.Spawner.Threads.{
  empty, cap, Op, caps, deletes, adds, clears, run, step, add, pop, delete, clear, with_id,
  without_id,
}

-- Three threads start where two may run, one ends by itself, and the rest is cancelled.
abbrev ops : List Op
ops = caps 2 ∷ adds ∷ adds ∷ adds ∷ deletes 3 ∷ clears ∷ []

run-ops :
    run empty ops ≡ record { count = 2; threads = []; current_id = 3; cancelled = 1 ∷ 3 ∷ 2 ∷ [] }
unfolding run step cap add pop delete clear with_id without_id
run-ops = refl
