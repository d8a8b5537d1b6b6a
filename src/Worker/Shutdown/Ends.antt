-- ===== src/Worker/Shutdown/Ends.antt =====
-- worker.go: what runs when the goroutines of the worker have ended.
use launce.Base.{◌≡◌, false, not, List, [], ◌∷◌, arith}
use launce.Worker.{is_down}
use launce.Worker.Shutdown.{
  Cycle, choosing, taken, spawns, cleaning, exited, starting, launching, Quitter, outside, asked,
  stopping, passed, done, Worker, begin, Move, requests, asks_stop, takes, checks, launches,
  spawned, takes_stop, cleans, leaves, quits, start_returns, move, moves,
}

-- The generator's side, if no `Start` is missed: `Stop` has come during one under way just when `started` is taken back, and
-- nothing runs yet; else the spawners run just when the test is started.
abbrev Consistent : Cycle → Worker → Type 0
Consistent (starting c) w = (w.is_running ≡ false) × (w.started ≡ not c)
Consistent (launching c) w = (w.is_running ≡ false) × (w.started ≡ not c)
Consistent choosing w = w.is_running ≡ w.started
Consistent taken w = w.is_running ≡ w.started
Consistent spawns w = w.is_running ≡ w.started
Consistent cleaning w = w.is_running ≡ w.started
Consistent exited w = w.is_running ≡ w.started

-- A state that `Stop` passes by is the cycle's own, before `Quit` comes.
abbrev Owned : Cycle → Worker → Type 0
Owned cleaning w = Unit
Owned choosing w = is_down w.state ≡ false
Owned taken w = is_down w.state ≡ false
Owned spawns w = is_down w.state ≡ false
Owned exited w = is_down w.state ≡ false
Owned (starting c) w = is_down w.state ≡ false
Owned (launching c) w = is_down w.state ≡ false

-- Behind `Quit`'s `Stop`, unless it has missed a `Start`, only a stop request may still have to stop the test.
abbrev Stopped : Cycle → Worker → Type 0
Stopped cleaning w = Unit
Stopped choosing w = w.started ≡ false
Stopped taken w = w.started ≡ false
Stopped spawns w = w.started ≡ false
Stopped exited w = w.started ≡ false
Stopped (starting c) w = w.started ≡ false
Stopped (launching c) w = w.started ≡ false

abbrev Quitting : Quitter → Worker → Type 0
Quitting outside w = Owned w.cycle w
Quitting asked w = Owned w.cycle w
Quitting stopping w = Unit
Quitting passed w = w.late ≡ false → Stopped w.cycle w
Quitting done w = w.late ≡ false → Stopped w.cycle w

record IsValid (w : Worker) : Type 0 where
  pub consistent : w.late ≡ false → Consistent w.cycle w
  pub quitting : Quitting w.quitter w
  pub ended : w.cycle ≡ exited → w.quitter ≡ done

move-IsValid : (w : Worker) (m : Move) → IsValid w → IsValid (move w m)
unfolding move
move-IsValid w requests v = ground arith
move-IsValid w asks_stop v = ground arith
move-IsValid w takes v = ground arith
move-IsValid w checks v = ground arith
move-IsValid w (start_returns fails) v = ground arith
move-IsValid w launches v = ground arith
move-IsValid w spawned v = ground arith
move-IsValid w takes_stop v = ground arith
move-IsValid w cleans v = ground arith
move-IsValid w leaves v = ground arith
move-IsValid w quits v = ground arith

moves-IsValid : (w : Worker) (ms : List Move) → IsValid w → IsValid (moves w ms)
unfolding moves
moves-IsValid w [] v = v
moves-IsValid w (m ∷ ms) v = moves-IsValid (move w m) ms (move-IsValid w m v)

-- However a `Quit`, spawn requests, stop requests and the load test cycle interleave: once the cycle's goroutine has
-- returned, so that `Join` can go on, the test is not started and no spawner runs. The condition is that the `Stop`
-- of `Quit` misses no `Start`: none begins behind that `Stop`, and none during which it comes goes on to start the
-- spawners, as none does in which a handler returns an error for its cancelled context.
pub moves-exited :
    (ms : List Move)
    → (moves begin ms).cycle ≡ exited
    → (moves begin ms).late ≡ false
    → ((moves begin ms).started ≡ false) × ((moves begin ms).is_running ≡ false)
moves-exited ms e l =
    let v : IsValid (moves begin ms) = moves-IsValid begin ms (ground arith) in
    ground (arith, e, l, v.consistent, v.quitting, v.ended)
