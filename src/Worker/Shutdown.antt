-- ===== src/Worker/Shutdown.antt =====
-- worker.go with generator.go: a `Quit` in the middle of the load test cycle. The cycle's goroutine and the one
-- that quits move in any order, by atomic operations on the worker's state and the generator's `started`. `Stop`
-- of the generator is one step, and so is the loop of `Start` over the spawners; the handlers of the test start
-- return before that loop, with an error or not.
pub mod Ends
mod Tests
use launce.Base.{ℕ, Bool, true, false, ◌||◌, ◌&&◌, not, List, [], ◌∷◌, if◌then◌else◌}
use launce.Worker.{State, init, spawning, running, cleanup, stopped, is_down, is_up}

-- Where the cycle stands: at its `select`; with a spawn request; in `Start`, at the
-- handlers or behind them, before the loop over the spawners, with whether `Stop` of the generator has come meanwhile; before it spawns; with a stop request; or
-- gone.
pub data Cycle : Type 0 where
  choosing taken spawns cleaning exited : Cycle
  starting launching : Bool → Cycle

-- Where the goroutine that quits stands: before; at the look at the state in `Stop`; before the generator's `Stop`;
-- behind `Stop`; and behind the call of the cancel function.
pub data Quitter : Type 0 where
  outside asked stopping passed done : Quitter

-- What the goroutines share. `is_running` is whether the spawners run. `late` is whether `Stop` of `Quit` has
-- missed a `Start`: one that has begun when that `Stop` was over, or one during which it came and that
-- has started the spawners all the same.
pub record Worker : Type 0 where
  pub state : State
  pub started : Bool
  pub is_running : Bool
  pub pending : Bool
  pub stop_ch : Bool
  pub cycle : Cycle
  pub quitter : Quitter
  pub late : Bool

-- A worker that has not begun.
abbrev pub begin : Worker
begin = record {
  state = init;
  started = false;
  is_running = false;
  pending = false;
  stop_ch = false;
  cycle = choosing;
  quitter = outside;
  late = false;
}

abbrev is_over : Quitter → Bool
is_over passed = true
is_over done = true
is_over q = false

-- `case spawnCount := <-relayCh`.
unfoldable pub take : Worker → Worker
take w = elim w.cycle [
  | choosing ↦ if w.pending then record w { pending = false; cycle = taken } else w
  | taken ↦ w
  | spawns ↦ w
  | cleaning ↦ w
  | exited ↦ w
  | starting c ↦ w
  | launching c ↦ w
]

abbrev to_spawn : Worker → Worker
to_spawn w = record w { state = spawning; cycle = spawns }

-- The look at the state, and the beginning of `Start`.
unfoldable pub check : Worker → Worker
check w = elim w.cycle [
  | choosing ↦ w
  | taken ↦
      if is_up w.state || w.started
      then to_spawn w
      else record w { started = true; cycle = starting false; late = w.late || is_over w.quitter }
  | spawns ↦ w
  | cleaning ↦ w
  | exited ↦ w
  | starting c ↦ w
  | launching c ↦ w
]

-- The last of the handlers of `Start` returns, or one of them fails; whether it heeds its context is its own. An
-- error takes `started` back.
unfoldable pub end_start : Worker → Bool → Worker
end_start w fails = elim w.cycle [
  | choosing ↦ w
  | taken ↦ w
  | spawns ↦ w
  | cleaning ↦ w
  | exited ↦ w
  | starting c ↦
      if fails
      then record w { started = false; cycle = choosing }
      else record w { cycle = launching c }
  | launching c ↦ w
]

-- The loop of `Start` over the spawners, and the store of the state behind it. Nothing there looks at the context.
unfoldable pub launch : Worker → Worker
launch w = elim w.cycle [
  | choosing ↦ w
  | taken ↦ w
  | spawns ↦ w
  | cleaning ↦ w
  | exited ↦ w
  | starting c ↦ w
  | launching c ↦ to_spawn (record w { is_running = true; late = w.late || c })
]

-- The end of the turn.
unfoldable pub end_spawn : Worker → Worker
end_spawn w = elim w.cycle [
  | choosing ↦ w
  | taken ↦ w
  | spawns ↦ record w { state = running; cycle = choosing }
  | cleaning ↦ w
  | exited ↦ w
  | starting c ↦ w
  | launching c ↦ w
]

-- `case <-w.stopCh`.
unfoldable pub take_stop : Worker → Worker
take_stop w = elim w.cycle [
  | choosing ↦
      if w.stop_ch then record w { stop_ch = false; state = cleanup; cycle = cleaning } else w
  | taken ↦ w
  | spawns ↦ w
  | cleaning ↦ w
  | exited ↦ w
  | starting c ↦ w
  | launching c ↦ w
]

abbrev cancel_start : Cycle → Cycle
cancel_start (starting c) = starting true
cancel_start (launching c) = launching true
cancel_start c = c

-- `loadGenerator.Stop`.
unfoldable pub stop_generator : Worker → Worker
stop_generator w =
    if w.started
    then record w { started = false; is_running = false; cycle = cancel_start w.cycle }
    else w

-- The rest of that turn.
unfoldable pub clean : Worker → Worker
unfolding stop_generator
clean w = elim w.cycle [
  | choosing ↦ w
  | taken ↦ w
  | spawns ↦ w
  | cleaning ↦ record (stop_generator w) { state = init; cycle = choosing }
  | exited ↦ w
  | starting c ↦ w
  | launching c ↦ w
]

-- `case <-ctx.Done()`.
unfoldable pub leave : Worker → Worker
leave w = elim w.cycle [
  | choosing ↦ elim w.quitter [
    | outside ↦ w
    | asked ↦ w
    | stopping ↦ w
    | passed ↦ w
    | done ↦ record w { cycle = exited }
  ]
  | taken ↦ w
  | spawns ↦ w
  | cleaning ↦ w
  | exited ↦ w
  | starting c ↦ w
  | launching c ↦ w
]

-- The next step of `Quit`: its `Stop`, and the cancel function.
unfoldable pub quit : Worker → Worker
unfolding stop_generator
quit w = elim w.quitter [
  | outside ↦ record w { quitter = asked }
  | asked ↦
      if is_down w.state
      then record w { quitter = passed }
      else record w { state = cleanup; quitter = stopping }
  | stopping ↦ record (stop_generator w) { state = stopped; quitter = passed }
  | passed ↦ record w { quitter = done }
  | done ↦ w
]

-- A spawn or a stop request comes in, or one of the goroutines makes a step.
pub data Move : Type 0 where
  requests asks_stop takes checks launches spawned takes_stop cleans leaves quits : Move
  start_returns : Bool → Move

unfoldable pub move : Worker → Move → Worker
unfolding take check end_start launch end_spawn take_stop clean leave quit
move w requests = record w { pending = true }
move w asks_stop = record w { stop_ch = true }
move w takes = take w
move w checks = check w
move w (start_returns fails) = end_start w fails
move w launches = launch w
move w spawned = end_spawn w
move w takes_stop = take_stop w
move w cleans = clean w
move w leaves = leave w
move w quits = quit w

unfoldable pub moves : Worker → List Move → Worker
unfolding move
moves w [] = w
moves w (m ∷ ms) = moves (move w m) ms
