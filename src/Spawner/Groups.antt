-- ===== src/Spawner/Groups.antt =====
-- spawner/spawner.go: the goroutines that `StopAllThreads` waits for. Each goroutine belongs to the wait group that
-- `threadWg` held when it was spawned; a wait group is its number. The section under `threadMutex` is one step.
pub mod Waiting
mod Tests
use launce.Base.{
  ℕ, suc, ◌+◌, Bool, true, false, not, ◌&&◌, Option, none, some, List, [], ◌∷◌, ◌++◌, ◌==◌,
  if◌then◌else◌,
}
use launce.Spawner.Threads.{ThreadList, empty, pop, cap, add, delete, clear}

-- `threads`, `threadWg`, the goroutines that have not ended, each with its thread and its group, and the groups in
-- whose `Wait` calls of `StopAllThreads` are.
pub record Groups : Type 0 where
  pub threads : ThreadList
  pub group : ℕ
  pub live : List (ℕ × ℕ)
  pub waits : List ℕ

abbrev pub begin : Groups
begin = record { threads = empty; group = 0; live = []; waits = [] }

-- `spawn` up to the `go` statement.
unfoldable pub spawn : Groups → Groups
spawn s = let (id, tl) = add s.threads in record s { threads = tl; live = (id, s.group) ∷ s.live }

-- `spawnFunc` has returned: the thread is deleted, and `wg.Done` is called.
unfoldable pub remove : ℕ → List (ℕ × ℕ) → List (ℕ × ℕ)
remove id [] = []
remove id ((j, g) ∷ ls) = if j == id then ls else (j, g) ∷ remove id ls

unfoldable pub finish : Groups → ℕ → Groups
unfolding remove
finish s id = record s { threads = delete s.threads id; live = remove id s.live }

-- `StopAllThreads` up to its wait.
unfoldable pub stop_all_threads : Groups → Groups
stop_all_threads s = record s {
  threads = clear s.threads;
  group = suc s.group;
  waits = s.group ∷ s.waits;
}

-- Whether the group has a goroutine left.
unfoldable pub has_member : ℕ → List (ℕ × ℕ) → Bool
has_member g [] = false
has_member g ((id, h) ∷ ls) = if h == g then true else has_member g ls

unfoldable pub without : ℕ → List ℕ → List ℕ
without g [] = []
without g (h ∷ hs) = if h == g then hs else h ∷ without g hs

-- `wg.Wait` of a group returns, if no goroutine of it is left.
unfoldable pub end_wait : Groups → ℕ → Groups
unfolding has_member without
end_wait s g = if has_member g s.live then s else record s { waits = without g s.waits }

-- Spawns, ends of goroutines, the calls that cut the thread list, and those of `StopAllThreads` with their ends.
pub data Move : Type 0 where
  spawns stops : Move
  finishes caps pops returns : ℕ → Move

unfoldable pub move : Groups → Move → Groups
unfolding spawn finish stop_all_threads end_wait
move s spawns = spawn s
move s stops = stop_all_threads s
move s (finishes id) = finish s id
move s (caps n) = record s { threads = (cap s.threads n).1 }
move s (pops n) = record s { threads = (pop s.threads n).1 }
move s (returns g) = end_wait s g

unfoldable pub moves : Groups → List Move → Groups
unfolding move
moves s [] = s
moves s (m ∷ ms) = moves (move s m) ms
