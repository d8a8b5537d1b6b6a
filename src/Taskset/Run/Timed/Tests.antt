-- ===== src/Taskset/Run/Timed/Tests.antt =====
-- Tests of Timed.antt.
use launce.Base.{
  ℕ, suc, ◌+◌, ◌≡◌, refl, arith, true, Option, none, some, List, [], ◌∷◌, leb, max, map,
}
use launce.Context.{
  Context, background, with_cancel, done_at, is_done, stopping, with_graceful_stop,
}
use launce.User.{reschedule, reschedule_immediately}
use launce.Taskset.Queue.{TaskQueue, is_empty, next, schedule}
use launce.Taskset.Run.{Event, ran, waited, stopped, loop}
use launce.Taskset.Run.Stopping.{EndsWithin}
use launce.Taskset.Run.Graceful.{at_top}
use launce.Taskset.Run.Timed.{Turn, timed, has_wait}
use launce.Taskset.Run.Timed.Prompt.{clock, loop_ends_promptly}
use launce.Waiter.Timers.{idle}
use launce.Waiter.{user_wait}

abbrev no_tasks : TaskQueue ℕ
no_tasks = record { tasks = []; current = none }

-- A task that takes 30, with a wait of 40 behind it; one without a wait; and one with a wait of 500.
abbrev short : Turn ℕ
short = record {
  task_time = 30;
  scheduled = [];
  result = none;
  on_stop = none;
  duration = some 40;
  takes_done = true;
}

abbrev quick : Turn ℕ
quick = record short { result = some reschedule_immediately }

abbrev long : Turn ℕ
long = record short { result = some reschedule; duration = some 500 }

-- A user that is asked to stop at 140, with a grace period of 1000.
abbrev user : Context
user = with_cancel background (some 140)

abbrev graceful : Context
graceful = with_graceful_stop user 1000 10 none

abbrev counting : ℕ → Option (ℕ × ℕ)
counting n = some (n, suc n)

-- The third task runs from 100 to 130; the wait behind it is cut short at 140.
clock_test : clock (some true) graceful 0 (short ∷ quick ∷ []) ≡ 100
unfolding has_wait user_wait with_graceful_stop
clock_test = refl

abbrev trace : List (Event ℕ)
trace =
    let turns = timed (some true) true graceful idle 0 (short ∷ quick ∷ long ∷ short ∷ []) in
    (loop counting (some true) 0 no_tasks (map (at_top graceful) turns)).events

trace_test : trace ≡ ran 0 ∷ waited ∷ ran 1 ∷ ran 2 ∷ waited ∷ stopped ∷ []
unfolding loop timed with_graceful_stop stopping is_empty next schedule
trace_test = refl

loop_ends_promptly_example :
    (clock (some true) graceful 0 (short ∷ quick ∷ long ∷ []) ≡ 140)
    × EndsWithin 3 (
        loop counting (some true) 0 no_tasks (
          map
            (at_top graceful)
            (timed (some true) true graceful idle 0 (short ∷ quick ∷ long ∷ short ∷ []))))
    × ((u : ℕ) → is_done graceful u ≡ leb (max 10 140 + 1000) u)
unfolding has_wait user_wait with_graceful_stop
loop_ends_promptly_example =
    loop_ends_promptly (some true) counting 0 no_tasks true user 140 10 1000 0 (short ∷ quick ∷ [])
      [] long short (unfold done_at in refl) (omega arith) (omega arith)
