-- ===== src/Worker/Join/Leaving.antt =====
-- worker.go: `Join` returns behind a `Quit`.
use launce.Base.{ℕ, ◌+◌, ◌-◌, ◌≤◌, ◌≡◌, true, false, Bool, Option, none, some, List, [], ◌∷◌}
use launce.Worker.Join.{
  Phase, enters, opened, starting, running, leaving, closing, waiting, connecting, returned,
  Session, Move, calls_quit, hears_ack, goes, go, move,
}

unfoldable pub is_returned : Phase → Bool
is_returned (returned r) = true
is_returned phase = false

-- Before the second context.
unfoldable pub is_early : Phase → Bool
is_early enters = true
is_early opened = true
is_early phase = false

-- How many moves `Join` can still make.
unfoldable rank : Phase → ℕ
rank enters = 68
rank opened = 67
rank starting = 66
rank (connecting n) = 65 - n
rank running = 4
rank leaving = 3
rank closing = 2
rank waiting = 1
rank (returned r) = 0

-- The moves of `Join` among these that take place.
unfoldable pub made : Session → List Move → ℕ
made s [] = 0
made s (calls_quit ∷ ms) = made (move s calls_quit) ms
made s (hears_ack ∷ ms) = made (move s hears_ack) ms
made s (goes err case ∷ ms) =
    (elim (go s s.phase err case) [ none ↦ 0 | some s' ↦ 1 ]) + made (move s (goes err case)) ms

abbrev Falls : Phase → Option Session → Type 0
Falls phase none = Unit
Falls phase (some s') = 1 + rank s'.phase ≤ rank phase

abbrev KeepsCancelled : Option Session → Type 0
KeepsCancelled none = Unit
KeepsCancelled (some s) = s.processes_cancelled ≡ true
