-- ===== src/Examples/Tests.antt =====
-- Tests of the programs.
use launce.Base.{◌≡◌, refl, arith, true, false, Option, none, some, List, [], ◌∷◌, String}
use launce.Context.{Context, background, with_cancel, done_at, with_graceful_stop}
use launce.User.{reschedule}
use launce.Waiter.{cancelled}
use launce.Waiter.Timers.{idle}
use launce.Taskset.Queue.{is_empty, schedule}
use launce.Taskset.Queue as Queue
use launce.Taskset.Sequential.{new, init, next}
use launce.Taskset.Run.{loop, returned, choose, schedule_each, react}
use launce.Taskset.Run.Cycling.{ran_of}
use launce.Examples.{Env, play}
use launce.Examples.Order.{IsPrefix}
use launce.Examples.ScheduleTask.{task_set, program, no_tasks, expected, loop-expected}
use launce.Examples.StopTimeout.{process, task_duration, process_completes}
use launce.Examples.TaggedTask.{left, tasks}
use launce.Taskset.Task.{to_list, get_tags}
use launce.Taskset.Filter.{filter_tasks, filter_all, has_any, has, options}
use launce.Taskset.User.{on_start_options}

abbrev only : String → Option (List String)
only t = some (t ∷ [])

-- The four runs that the comment of the example lists.
tags_test :
    (left (only "tag1") none ≡ 1 ∷ 2 ∷ [])
    × (left (some ("tag2" ∷ "tag3" ∷ [])) none ≡ 2 ∷ 3 ∷ [])
    × (left none (only "tag3") ≡ 1 ∷ 2 ∷ 4 ∷ [])
    × (left (some ("tag1" ∷ "tag2" ∷ [])) (only "tag2") ≡ 1 ∷ [])
unfolding to_list filter_tasks filter_all tasks has_any get_tags has options on_start_options
tags_test = (refl, refl, refl, refl)

abbrev quiet : Env
quiet = record { ctx_err = none; stopping = false; on_stop = none; wait_err = none }

abbrev turns : List Env
turns = quiet ∷ quiet ∷ quiet ∷ quiet ∷ quiet ∷ quiet ∷ []

-- Undisturbed, the set runs its five tasks and returns.
quiet_test :
    let t =
      loop next
        (some true)
        (init task_set)
        no_tasks
        (play next program (init task_set) no_tasks turns) in
    (ran_of t.events ≡ expected) × (t.outcome ≡ returned reschedule)
unfolding loop play program task_set new init next choose is_empty Queue.next schedule schedule_each
    react
quiet_test = (refl, refl)

loop-expected_example :
    IsPrefix
      (ran_of
        (loop next
          (some true)
          (init task_set)
          no_tasks
          (play next program (init task_set) no_tasks turns)).events)
      expected
loop-expected_example = loop-expected (some true) turns

-- A user that is asked to stop one second after its task has begun.
abbrev user : Context
user = with_cancel background (some 1_000_000_000)

process_completes_example :
    process idle (with_graceful_stop user 5_000_000_000 0 none) true 0
    ≡ (some task_duration, cancelled task_duration idle)
process_completes_example =
    process_completes user 1_000_000_000 0 5_000_000_000 0 true (unfold done_at in refl)
      (omega arith) (omega arith) (omega arith) (omega arith)
