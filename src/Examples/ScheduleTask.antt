-- ===== src/Examples/ScheduleTask.antt =====
-- _examples/schedule-task/user.go: a sequential set whose first task schedules three others.
use launce.Base.{
  ℕ, zero, suc, refl, ap, sym, ◌∙◌, true, false, none, some, List, [], ◌∷◌, ◌++◌, append_assoc,
  length,
}
use launce.User.{interrupt, Runner}
use launce.Taskset.Queue.{TaskQueue, is_empty, schedule}
use launce.Taskset.Queue as Queue
use launce.Taskset.Sequential.{Sequential, new, init, next}
use launce.Taskset.Run.{loop, choose}
use launce.Taskset.Run.Cycling.{ran_of}
use launce.Examples.{Env, Program, play}
use launce.Examples.Order.{IsPrefix, order, loop-IsPrefix}

-- The methods of the user, and the functions beside them.
pub data Task : Type 0 where
  seq1 seq2 extra1 extra2 extra3 : Task

-- `TaskSet`.
unfoldable pub task_set : Sequential Task
unfolding new
task_set = new (seq1 ∷ seq2 ∷ [])

-- What they schedule and return.
unfoldable pub program : Program Task
program seq1 = ((extra1, true) ∷ (extra2, true) ∷ (extra3, false) ∷ [], none)
program seq2 = ([], some interrupt)
program extra1 = ([], none)
program extra2 = ([], none)
program extra3 = ([], none)

abbrev pub no_tasks : TaskQueue Task
no_tasks = record { tasks = []; current = none }

abbrev pub expected : List Task
expected = seq1 ∷ extra2 ∷ extra1 ∷ extra3 ∷ seq2 ∷ []

order-IsPrefix :
    (runner : Runner) (n : ℕ)
    → IsPrefix (order next program n runner (init task_set) no_tasks) expected
unfolding order program task_set new init next choose is_empty Queue.next schedule
order-IsPrefix runner zero = (_, refl)
order-IsPrefix runner (suc zero) = (_, refl)
order-IsPrefix runner (suc (suc zero)) = (_, refl)
order-IsPrefix runner (suc (suc (suc zero))) = (_, refl)
order-IsPrefix runner (suc (suc (suc (suc zero)))) = (_, refl)
order-IsPrefix runner (suc (suc (suc (suc (suc n))))) = ([], refl)

-- The order that the comment in `seq1` promises: whatever the waits, the context and `OnStop` do, the
-- tasks that a run of the set runs are seq1, extra2, extra1, extra3, seq2, or the first of these.
pub loop-expected :
    (runner : Runner) (es : List Env)
    → IsPrefix
        (ran_of
          (loop next runner
            (init task_set)
            no_tasks
            (play next program (init task_set) no_tasks es)).events)
        expected
loop-expected runner es =
    let (p, h) = loop-IsPrefix next program runner (init task_set) no_tasks es in
    let (q, k) = order-IsPrefix runner (length es) in
    (p ++ q, sym (append_assoc _ p q) ∙ ap (λ xs. xs ++ q) h ∙ k)
