-- ===== src/Worker/Shutdown/Tests.antt =====
-- Runs of `Quit` during the cycle, and the theorem on it at one.
use launce.Base.{◌≡◌, refl, true, false, List, [], ◌∷◌}
use launce.Worker.Shutdown.{
  begin, exited, take, check, end_start, launch, end_spawn, stop_generator, leave, quit, Move,
  requests, takes, checks, launches, spawned, leaves, quits, start_returns, move, moves,
}
use launce.Worker.Shutdown.Ends.{moves-exited}

-- `Quit` during the handlers of `Start`, one of which heeds its context.
abbrev ms : List Move
ms = requests ∷ takes ∷ checks ∷ quits ∷ quits ∷ quits ∷ start_returns true ∷ quits ∷ leaves ∷ []

-- `Quit` between the receipt of a spawn request and the beginning of `Start`.
abbrev between : List Move
between =
    requests
    ∷ takes
    ∷ quits
    ∷ quits
    ∷ quits
    ∷ quits
    ∷ checks
    ∷ start_returns false
    ∷ launches
    ∷ spawned
    ∷ leaves
    ∷ []

between_runs : ((moves begin between).cycle ≡ exited) × ((moves begin between).is_running ≡ true)
unfolding moves move take check end_start launch end_spawn leave quit stop_generator
between_runs = (refl, refl)

-- `Quit` between the return of the last handler and the loop over the spawners, which `Start` runs nevertheless.
abbrev behind_handlers : List Move
behind_handlers =
    requests
    ∷ takes
    ∷ checks
    ∷ start_returns false
    ∷ quits
    ∷ quits
    ∷ quits
    ∷ quits
    ∷ launches
    ∷ spawned
    ∷ leaves
    ∷ []

behind_handlers_runs :
    ((moves begin behind_handlers).cycle ≡ exited)
    × ((moves begin behind_handlers).is_running ≡ true)
unfolding moves move take check end_start launch end_spawn leave quit stop_generator
behind_handlers_runs = (refl, refl)

ms_exited : ((moves begin ms).cycle ≡ exited) × ((moves begin ms).late ≡ false)
unfolding moves move take check end_start leave quit stop_generator
ms_exited = (refl, refl)

moves-exited_example : ((moves begin ms).started ≡ false) × ((moves begin ms).is_running ≡ false)
moves-exited_example = moves-exited ms ms_exited.0 ms_exited.1
