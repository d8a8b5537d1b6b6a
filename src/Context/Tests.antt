-- ===== src/Context/Tests.antt =====
-- Contexts with a grace period at concrete times.
use launce.Base.{◌≡◌, refl, true, false, none, some}
use launce.Context.{
  Context, background, with_cancel, done_at, signal, is_done, with_graceful_stop, stopping,
  without_graceful_stop,
}

-- A user's context that is stopped at 100, with a grace period of 50 for its task set, which is made at 10.
abbrev graceful : Context
graceful = with_graceful_stop (with_cancel background (some 100)) 50 10 none

graceful_ends : done_at graceful ≡ some 150
unfolding done_at with_graceful_stop
graceful_ends = refl

graceful_stops : stopping graceful 120 ≡ true
unfolding done_at signal is_done with_graceful_stop stopping
graceful_stops = refl

graceful_goes_on : is_done graceful 120 ≡ false
unfolding done_at is_done with_graceful_stop
graceful_goes_on = refl

without_graceful_ends : done_at (without_graceful_stop graceful) ≡ some 100
unfolding done_at signal with_graceful_stop without_graceful_stop
without_graceful_ends = refl
