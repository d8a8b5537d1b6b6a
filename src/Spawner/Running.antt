-- ===== src/Spawner/Running.antt =====
-- spawner/spawner.go: `Count`, and the counter that the spawned goroutines keep. The counter is an int64 that
-- is changed by atomic additions; a goroutine is its index in the list of all.
pub mod Counted
mod Tests
use launce.Base.{ℕ, List, [], ◌∷◌, ◌++◌, get_or, set}
use launce.Base.Int64.{add64, minus_one}

-- Where a goroutine is: before the addition of 1, behind it, or behind that of -1.
pub data Phase : Type 0 where
  launched running ended : Phase

pub record Counter : Type 0 where
  pub goroutines : List Phase
  pub spawned : ℕ

abbrev pub begin : Counter
begin = record { goroutines = []; spawned = 0 }

-- `spawn`: the `go` statement.
unfoldable pub spawn : Counter → Counter
spawn s = record s { goroutines = s.goroutines ++ launched ∷ [] }

-- `atomic.AddInt64(&s.spawned, 1)`.
unfoldable pub enter : Counter → ℕ → Counter
enter s i = elim (get_or s.goroutines i ended) [
  | launched ↦ record { goroutines = set s.goroutines i running; spawned = add64 s.spawned 1 }
  | running ↦ s
  | ended ↦ s
]

-- The deferred addition of -1.
unfoldable pub exit : Counter → ℕ → Counter
exit s i = elim (get_or s.goroutines i ended) [
  | launched ↦ s
  | running ↦ record { goroutines = set s.goroutines i ended; spawned = add64 s.spawned minus_one }
  | ended ↦ s
]

-- `Count`.
abbrev pub count : Counter → ℕ
count s = s.spawned

pub data Move : Type 0 where
  spawns : Move
  enters exits : ℕ → Move

unfoldable pub move : Counter → Move → Counter
unfolding spawn enter exit
move s spawns = spawn s
move s (enters i) = enter s i
move s (exits i) = exit s i

unfoldable pub moves : Counter → List Move → Counter
unfolding move
moves s [] = s
moves s (m ∷ ms) = moves (move s m) ms
