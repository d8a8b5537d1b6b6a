-- ===== src/Context.antt =====
-- graceful_stop.go: contexts that outlive the one they are derived from by a grace period. A context is
-- how it was made, with the times at which its cancel functions are called; times are nanoseconds, and
-- `none` is never. A goroutine or timer that becomes ready runs at once.
pub mod Grace
mod Tests
use launce.Base.{ℕ, ◌+◌, Bool, true, false, Option, none, some, min, max, leb, if◌then◌else◌}
use launce.Base.Int64.{lt64}

-- `context.Context` as the code makes it: the background, `WithCancel`, `WithoutCancel`, `WithValue` of the
-- key `stopSignalKey`, and `withoutGracefulStopContext`.
pub data Context : Type 0 where
  background : Context
  with_cancel : Context → Option ℕ → Context
  without_cancel : Context → Context
  with_signal : Context → Context → Context
  without_graceful : Context → Context → Context

-- The earlier of two times.
abbrev pub first : Option ℕ → Option ℕ → Option ℕ
first none b = b
first (some a) none = some a
first (some a) (some b) = some (min a b)

-- When `Done` is closed. `without_graceful` has the `Done` of its second context.
unfoldable pub done_at : Context → Option ℕ
done_at background = none
done_at (with_cancel c t) = first (done_at c) t
done_at (without_cancel c) = none
done_at (with_signal c s) = done_at c
done_at (without_graceful c s) = done_at s

-- `Value(stopSignalKey{})`.
unfoldable pub signal : Context → Option Context
signal background = none
signal (with_cancel c t) = signal c
signal (without_cancel c) = signal c
signal (with_signal c s) = some s
signal (without_graceful c s) = signal c

abbrev pub passed : Option ℕ → ℕ → Bool
passed none now = false
passed (some t) now = leb t now

-- `Err() != nil` at the time `now`.
unfoldable pub is_done : Context → ℕ → Bool
unfolding done_at
is_done c now = passed (done_at c) now

-- When `context.AfterFunc`, called at the time `now`, leads to `cancel`.
abbrev pub cancelled_at : Option ℕ → ℕ → ℕ → Option ℕ
cancelled_at none stop_timeout now = none
cancelled_at (some t) stop_timeout now =
    some (if lt64 0 stop_timeout then max now t + stop_timeout else max now t)

-- `WithGracefulStop` at the time `now`, whose cleanup is called at the time `released`.
unfoldable pub with_graceful_stop : Context → ℕ → ℕ → Option ℕ → Context
unfolding done_at
with_graceful_stop c stop_timeout now released =
    with_signal
      (with_cancel (without_cancel c) (first released (cancelled_at (done_at c) stop_timeout now)))
      c

-- `Stopping`.
unfoldable pub stopping : Context → ℕ → Bool
unfolding signal is_done
stopping c now = elim (signal c) [ none ↦ false | some soft ↦ is_done soft now ]

-- `WithoutGracefulStop`.
unfoldable pub without_graceful_stop : Context → Context
unfolding signal
without_graceful_stop c = elim (signal c) [ none ↦ c | some soft ↦ without_graceful c soft ]
