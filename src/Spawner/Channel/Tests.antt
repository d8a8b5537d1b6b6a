-- ===== src/Spawner/Channel/Tests.antt =====
-- Runs of spawner/spawner.go, and the theorems on it at concrete inputs.
use launce.Base.{◌+◌, ◌≤◌, ◌≡◌, refl, none, List, [], ◌∷◌, length}
use launce.Spawner.Threads.{add, cap, pop, delete, with_id, without_id}
use launce.Spawner.Channel.{
  restart_never, restart_always, new, Move, sets_cap, starts, goes_on, puts, spawns, leaves,
  finishes, releases, move, moves, go_on, leave, spawn_next, release, set_cap, start, swap_channel,
  launch, put, spawn, finish, remove, migrate,
}
use launce.Spawner.Channel.Tokens.{pending, moves-new}

-- Two users start; one ends by itself.
abbrev two : List Move
two =
    sets_cap 2
    ∷ starts
    ∷ goes_on
    ∷ goes_on
    ∷ puts
    ∷ spawns
    ∷ puts
    ∷ spawns
    ∷ finishes 1
    ∷ releases
    ∷ []

moves-two :
    ((moves (new restart_never) two).live ≡ 2 ∷ [])
    × ((moves (new restart_never) two).tokens ≡ 1)
    × ((moves (new restart_never) two).budget ≡ 0)
unfolding new moves move go_on set_cap start swap_channel launch put spawn_next spawn finish remove
    release add cap pop delete with_id without_id
moves-two = (refl, refl, refl)

moves-new_example :
    let s = moves (new restart_never) two in
    (length s.live + s.ending + pending s.work ≡ s.tokens)
    × (s.tokens ≤ s.room)
    × (s.ending ≤ s.tokens)
unfolding new moves move go_on set_cap start swap_channel launch put spawn_next spawn finish remove
    release add cap pop delete with_id without_id
moves-new_example = moves-new restart_never two refl

-- The capacity falls to 1 while two users run: the caller holds a token that it cannot put.
abbrev held : List Move
held =
    sets_cap 2
    ∷ starts
    ∷ goes_on
    ∷ goes_on
    ∷ puts
    ∷ spawns
    ∷ puts
    ∷ spawns
    ∷ sets_cap 1
    ∷ leaves
    ∷ goes_on
    ∷ goes_on
    ∷ goes_on
    ∷ []

moves-held :
    (go_on (moves (new restart_always) held) ≡ none)
    × ((moves (new restart_always) held).threads.cancelled ≡ 1 ∷ [])
unfolding new moves move go_on set_cap start swap_channel launch put spawn_next spawn finish remove
    release leave migrate add cap pop delete with_id without_id
moves-held = (refl, refl)
