-- ===== src/Spawner/Groups/Tests.antt =====
-- A `StopAllThreads` among spawns, and the theorem on it.
use launce.Base.{◌<◌, ◌≡◌, refl, true, false, List, [], ◌∷◌}
use launce.Spawner.Threads.{pop, cap, add, delete, clear}
use launce.Spawner.Threads.Cancelled.{count}
use launce.Spawner.Groups.{
  Groups, begin, spawn, remove, finish, stop_all_threads, has_member, without, end_wait, Move,
  spawns, stops, finishes, returns, move, moves,
}
use launce.Spawner.Groups
use launce.Spawner.Groups.Waiting.{is_waiting, is_live, moves-begin_told}

-- Two goroutines, of which one ends, behind a `StopAllThreads` a third one.
abbrev ms : List Move
ms = Groups.caps 5 ∷ spawns ∷ spawns ∷ stops ∷ finishes 1 ∷ returns 0 ∷ spawns ∷ []

still_waits : ((moves begin ms).waits ≡ 0 ∷ []) × ((moves begin ms).live ≡ (3, 1) ∷ (2, 0) ∷ [])
unfolding moves move spawn remove finish stop_all_threads has_member without end_wait pop cap add
    delete clear
still_waits = (refl, refl)

moves-begin_told_example :
    let s = moves begin ms in
    (is_waiting 0 s.waits ≡ true → is_live 2 0 s.live ≡ true → 0 < count 2 s.threads.cancelled)
    × (is_live 2 0 (stop_all_threads s).live ≡ true
        → 0 < count 2 (stop_all_threads s).threads.cancelled)
    × (is_waiting s.group s.waits ≡ false)
moves-begin_told_example = moves-begin_told ms 2 0
