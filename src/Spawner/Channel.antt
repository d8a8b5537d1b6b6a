-- ===== src/Spawner/Channel.antt =====
-- spawner/spawner.go: the channel whose tokens stand for goroutines, and who puts and takes them.
-- The goroutine that calls `Cap`, `Start` and `Stop`, one call after another, the worker that spawns, and
-- the spawned goroutines move in any order. A channel of tokens is their number.
pub mod Tokens
mod Tests
use launce.Base.{
  ℕ, zero, suc, ◌+◌, ◌-◌, Bool, true, false, ◌&&◌, ◌||◌, not, Option, none, some, List, [], ◌∷◌,
  ltb, ◌==◌, if◌then◌else◌,
}
use launce.Base.Int64.{add64, sub64, max64}
use launce.Spawner.Threads.{ThreadList, empty, pop, cap, add, delete, clear}

-- `RestartMode`.
pub data RestartMode : Type 0 where
  restart_locust_compatible restart_never restart_always : RestartMode

-- Where the caller stands: outside of all methods; in `spawnWorker` with a new capacity, and whether it
-- resets, before the old worker has stopped; in `Stop`; in the loop of `migrateSpawnCh`; or there with a
-- token that it took from the old channel and cannot put into the new one.
pub data Call : Type 0 where
  outside stopping : Call
  restarting : ℕ → Bool → Call
  migrating holding : Call

-- Where the worker stands: gone, at its `select`, or between that and the end of `spawn`.
pub data Work : Type 0 where
  exited choosing spawning : Work

-- `Spawner`, with its channels and goroutines: `old` is the channel that is migrated, `room` and `tokens`
-- are the capacity and the tokens of `spawnCh`; `live` are the goroutines in `spawnFunc`, and `ending`
-- those behind `Delete`. `has_stop` is whether `stop` is set, `told` whether `stopCh` is closed.
pub record Spawner : Type 0 where
  pub mode : RestartMode
  pub count : ℕ
  pub total_spawned : ℕ
  pub has_stop : Bool
  pub told : Bool
  pub old : ℕ
  pub room : ℕ
  pub tokens : ℕ
  pub is_closed : Bool
  pub threads : ThreadList
  pub live : List ℕ
  pub ending : ℕ
  pub call : Call
  pub work : Work
  pub budget : ℕ

-- `New`. There is no channel yet, and none to migrate.
unfoldable pub new : RestartMode → Spawner
new mode = record {
  mode = mode;
  count = 0;
  total_spawned = 0;
  has_stop = false;
  told = false;
  old = 0;
  room = 0;
  tokens = 0;
  is_closed = false;
  threads = empty;
  live = [];
  ending = 0;
  call = outside;
  work = exited;
  budget = 0;
}

-- `s.reclaim` of what a method of the thread list returns.
abbrev pub reclaim : Spawner → ℕ × ThreadList → Spawner
reclaim s (cancelled, tl) = record s {
  threads = tl;
  total_spawned = if ltb 0 cancelled then sub64 s.total_spawned cancelled else s.total_spawned;
}

-- Whether `spawnCh <- …` goes through: there is room, or the channel has no buffer and a goroutine at its
-- end receives.
abbrev pub can_send : Spawner → Bool
can_send s = ltb s.tokens s.room || (s.room == 0 && ltb 0 s.ending)

abbrev pub send : Spawner → Spawner
send s =
    if s.room == 0 then record s { ending = s.ending - 1 } else record s { tokens = s.tokens + 1 }

-- `Cap` up to the first point where it may wait.
unfoldable pub set_cap : Spawner → ℕ → Spawner
set_cap s n =
    if s.count == n
    then s
    else (if s.has_stop
        then record s { count = n; told = true; call = restarting n false }
        else reclaim (record s { count = n }) (cap s.threads n))

-- `Start`, likewise.
unfoldable pub start : Spawner → Spawner
start s = record s { told = s.has_stop; call = restarting s.count true }

-- `Stop`, likewise.
unfoldable pub stop : Spawner → Spawner
stop s = if s.has_stop then record s { told = true; call = stopping } else s

-- `spawnWorker` behind the wait for the old worker, up to the migration.
unfoldable pub swap_channel : Spawner → ℕ → Bool → Spawner
swap_channel s n reset = record s {
  total_spawned = if reset then 0 else s.total_spawned;
  has_stop = true;
  told = false;
  old = s.tokens;
  room = n;
  tokens = 0;
  is_closed = false;
  call = migrating;
}

-- A turn of the loop of `migrateSpawnCh` with a token in the old channel.
unfoldable pub migrate : Spawner → Spawner
migrate s =
    if not (s.room == 0) && ltb s.tokens s.room
    then record s { old = s.old - 1; tokens = s.tokens + 1 }
    else record (reclaim s (pop s.threads 1)) { old = s.old - 1; call = holding }

-- `spawnWorker` behind the migration: the thread list is cut, and the new worker starts.
unfoldable pub launch : Spawner → Spawner
launch s =
    let s' = reclaim s (cap s.threads s.room) in
    record s' { call = outside; work = choosing; budget = max64 0 (sub64 s.room s'.total_spawned) }

-- `spawn`.
unfoldable pub spawn : Spawner → Spawner
spawn s =
    let (id, tl) = add s.threads in
    record s {
      total_spawned = add64 s.total_spawned 1;
      threads = tl;
      live = id ∷ s.live;
      work = choosing;
      budget = s.budget - 1;
    }

-- Whether the worker may put a token, if it can: `RestartNever` counts its turns. The budget is not used
-- in the other modes.
abbrev pub may_put : Spawner → Bool
may_put s = elim s.mode [
  | restart_locust_compatible ↦ true
  | restart_never ↦ not (s.budget == 0)
  | restart_always ↦ true
]

-- Whether it may return: it is told to, or is done in its mode.
abbrev pub may_exit : Spawner → Bool
may_exit s = s.told || elim s.mode [
  | restart_locust_compatible ↦ not (can_send s)
  | restart_never ↦ s.budget == 0
  | restart_always ↦ false
]

unfoldable pub remove : ℕ → List ℕ → Option (List ℕ)
remove id [] = none
remove id (u ∷ us) =
    let rest = remove id us in
    if u == id then some us else elim rest [ none ↦ none | some vs ↦ some (u ∷ vs) ]

-- `spawnFunc` returns, and the thread is deleted.
unfoldable pub finish : Spawner → ℕ → Option Spawner
finish s id = elim (remove id s.live) [
  | none ↦ none
  | some live ↦
      some (record s { live = live; threads = delete s.threads id; ending = s.ending + 1 })
]

-- `<-s.spawnCh` of a goroutine at its end. It waits while the channel is empty and open.
unfoldable pub release : Spawner → Option Spawner
release s =
    if s.ending == 0
    then none
    else (if ltb 0 s.tokens
        then some (record s { tokens = s.tokens - 1; ending = s.ending - 1 })
        else (if s.is_closed then some (record s { ending = s.ending - 1 }) else none))

-- What the caller does next inside a method, if it need not wait.
unfoldable pub go_on : Spawner → Option Spawner
go_on s = elim s.call [
  | outside ↦ none
  | stopping ↦ elim s.work [
    | exited ↦ some (record s { has_stop = false; call = outside })
    | choosing ↦ none
    | spawning ↦ none
  ]
  | restarting n reset ↦ elim s.work [
    | exited ↦ some (swap_channel s n reset)
    | choosing ↦ none
    | spawning ↦ none
  ]
  | migrating ↦ some (if s.old == 0 then launch s else migrate s)
  | holding ↦ if can_send s then some (record (send s) { call = migrating }) else none
]

-- What the worker does next: it puts a token, spawns, or returns, which closes the channel.
unfoldable pub put : Spawner → Option Spawner
put s = elim s.work [
  | exited ↦ none
  | spawning ↦ none
  | choosing ↦ if may_put s && can_send s then some (record (send s) { work = spawning }) else none
]

unfoldable pub leave : Spawner → Option Spawner
leave s = elim s.work [
  | exited ↦ none
  | spawning ↦ none
  | choosing ↦ if may_exit s then some (record s { work = exited; is_closed = true }) else none
]

unfoldable pub spawn_next : Spawner → Option Spawner
spawn_next s = elim s.work [ exited ↦ none | choosing ↦ none | spawning ↦ some (spawn s) ]

-- `StopAllThreads` up to its wait.
abbrev pub stop_all_threads : Spawner → Spawner
stop_all_threads s = record s { threads = clear s.threads }

-- A call of a method, which begins only outside of the others.
abbrev pub begins : Spawner → Spawner → Option Spawner
begins s s' = elim s.call [
  | outside ↦ some s'
  | stopping ↦ none
  | restarting n reset ↦ none
  | migrating ↦ none
  | holding ↦ none
]

pub data Move : Type 0 where
  sets_cap finishes : ℕ → Move
  starts stops clears goes_on puts leaves spawns releases : Move

-- One move of one goroutine. `clears` comes at any time, as any goroutine may stop all threads.
unfoldable pub move : Spawner → Move → Option Spawner
move s (sets_cap n) = begins s (set_cap s n)
move s starts = begins s (start s)
move s stops = begins s (stop s)
move s clears = some (stop_all_threads s)
move s goes_on = go_on s
move s puts = put s
move s leaves = leave s
move s spawns = spawn_next s
move s (finishes id) = finish s id
move s releases = release s

-- A sequence of moves; those that would have to wait do not take place.
unfoldable pub moves : Spawner → List Move → Spawner
moves s [] = s
moves s (m ∷ ms) = elim (move s m) [ none ↦ moves s ms | some s' ↦ moves s' ms ]
