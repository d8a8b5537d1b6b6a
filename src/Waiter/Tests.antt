-- ===== src/Waiter/Tests.antt =====
-- Waits at concrete times, and the theorems on them.
use launce.Base.{◌≡◌, refl, true, false, none, some, List, [], ◌∷◌}
use launce.Context.{
  Context, background, with_cancel, done_at, signal, is_done, with_graceful_stop,
  without_graceful_stop,
}
use launce.Waiter.{Call, init, stop_and_drain, cancelled, wait, user_wait, waits}
use launce.Waiter.Timers.{idle, waits-init}

abbrev user : Context
user = with_cancel background (some 100)

-- A wait of 70 from 60 on, which ends when the user is stopped and not at the end of its grace period.
cut_short :
    user_wait idle (with_graceful_stop user 50 10 none) (some 70) 60 false ≡ cancelled 100 idle
unfolding done_at signal is_done with_graceful_stop without_graceful_stop stop_and_drain wait
    user_wait
cut_short = refl

-- The tick and the end of the context at the same time, with either choice.
abbrev calls : List Call
calls =
    record { ctx = user; duration = some 40; now = 60; takes_done = true }
    ∷ record { ctx = user; duration = some 40; now = 60; takes_done = false }
    ∷ record { ctx = user; duration = none; now = 120; takes_done = true }
    ∷ []

-- The timer of `Init` fires only behind its stop.
waits-init_example : waits (init 5 3) calls ≡ some idle
waits-init_example = waits-init 5 3 calls
