-- ===== src/Worker/Join/Tests.antt =====
-- The theorems on `Join` at concrete runs, and runs of it.
use launce.Base.{◌≤◌, ◌<◌, ◌≡◌, refl, true, false, Option, none, some, List, [], ◌∷◌, if◌then◌else◌}
use launce.Worker.Join.{
  Session, begin, quit, open_transport, switch, greet, retry, connect, give_up, join_processes,
  say_quit, close_transport, finish, Err, connection, transport, running, connecting, returned,
  ticks, acks, done, Move, calls_quit, hears_ack, goes, select, go, move, moves,
}
use launce.Worker.Join.Order.{all_done, closings, is_open, moves-begin, ticks_of, moves-ticks_of}
use launce.Worker.Join.Leaving.{made}

abbrev joins : List Move
joins =
    goes none done
    ∷ goes none done
    ∷ goes none done
    ∷ goes none ticks
    ∷ hears_ack
    ∷ goes none acks
    ∷ []

-- A session that `Quit` ends, and one whose transport fails at the quit message.
abbrev ends : List Move
ends =
    goes none done
    ∷ goes none done
    ∷ goes none done
    ∷ goes none ticks
    ∷ hears_ack
    ∷ goes none acks
    ∷ calls_quit
    ∷ goes none done
    ∷ goes none done
    ∷ goes none done
    ∷ goes none done
    ∷ []

abbrev fails : List Move
fails =
    goes none done
    ∷ goes none done
    ∷ goes none done
    ∷ hears_ack
    ∷ goes none acks
    ∷ calls_quit
    ∷ goes none done
    ∷ goes (some (transport 5)) done
    ∷ []

fails_run : (moves (begin true) fails).phase ≡ returned (some (transport 5))
unfolding begin moves move quit go open_transport switch greet select retry connect give_up
    join_processes say_quit close_transport finish
fails_run = refl

-- A `Quit` that comes when `open` has returned and the second context is not set yet cancels the first one: `Join`
-- goes on, and its processes are not cancelled.
lost_quit :
    let s = moves (begin false) (
      goes none done
      ∷ calls_quit
      ∷ goes none done
      ∷ goes none done
      ∷ hears_ack
      ∷ goes none acks
      ∷ []) in
    (s.phase ≡ running) × (s.quits ≡ 1) × (s.processes_cancelled ≡ false)
unfolding begin moves move quit go open_transport switch greet select connect
lost_quit = (refl, refl, refl)

ended : (moves (begin false) ends).phase ≡ returned none
unfolding begin moves move quit go open_transport switch greet select retry connect give_up
    join_processes say_quit close_transport finish
ended = refl

moves-begin_example :
    (◌≡◌ {A = Option Err} none none
      → ((moves (begin false) ends).calls ≡ all_done) × (0 < (moves (begin false) ends).quits))
    × (closings (moves (begin false) ends).calls
        ≡ (if is_open (moves (begin false) ends).calls then 1 else 0))
moves-begin_example = moves-begin false ends none ended

abbrev greeted : Session
greeted = moves (begin true) (goes none done ∷ goes none done ∷ goes none done ∷ [])

moves-ticks_of_example :
    (7 ≤ 60 → (moves greeted (ticks_of 7)).phase ≡ connecting 7)
    × ((moves greeted (ticks_of 61)).phase ≡ returned (some connection))
moves-ticks_of_example = moves-ticks_of greeted 7 (
    unfold begin in
    unfold moves in
    unfold move in unfold go in unfold open_transport in unfold switch in unfold greet in refl)

abbrev session : Session
session = moves (begin false) joins

-- Another `Quit`, and the moves that end `Join`.
abbrev leaves : List Move
leaves =
    goes none ticks
    ∷ calls_quit
    ∷ goes none ticks
    ∷ goes none done
    ∷ goes none done
    ∷ goes none done
    ∷ []

made_leaves : made (quit session) leaves ≡ 4
unfolding begin made moves move quit go open_transport switch greet select retry connect
    join_processes say_quit close_transport finish
made_leaves = refl
