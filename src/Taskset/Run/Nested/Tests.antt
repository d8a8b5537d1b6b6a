-- ===== src/Taskset/Run/Nested/Tests.antt =====
-- A run of a task set with a set inside, and the theorems on it.
use launce.Base.{
  ℕ, suc, ◌≡◌, refl, true, false, Option, none, some, List, [], ◌∷◌, ◌++◌, ◌==◌, if◌then◌else◌,
}
use launce.User.{interrupt, stop_user, canceled}
use launce.Taskset.Queue.{TaskQueue, is_empty, next, schedule}
use launce.Taskset.Run.{
  Round, Event, ran, waited, stopped, returned, choose, react, schedule_each, wait, interrupted,
  unexpected, process,
}
use launce.Taskset.Run.Nested.{Opening, answer, Answers, nil, cons, loop, go_on, after_set, early}
use launce.Taskset.Run.Nested.Order.{IsNested, loop-IsNested}
use launce.Taskset.Run.Nested.Unwinding.{Reaches, here, deeper, later, unwinding, loop_unwinds}

-- A set whose next task is always the next number, where task 1 is a set that begins at 10.
abbrev counting : ℕ → Option (ℕ × ℕ)
counting n = some (n, suc n)

abbrev enter : ℕ → Option ℕ
enter n = if n == 1 then some 10 else none

abbrev quiet : Opening ℕ
quiet = record { scheduled = []; result = none; ctx_err = none }

abbrev works : Round ℕ
works = record {
  ctx_err = none;
  stopping = false;
  scheduled = [];
  result = none;
  on_stop = none;
  wait_err = none;
}

abbrev gives_up : Round ℕ
gives_up = record works { result = some interrupt }

abbrev cut_off : Round ℕ
cut_off = record works { ctx_err = some canceled }

-- The set inside is interrupted by its second task, and the one around it goes on until it is cancelled.
abbrev answers : Answers ℕ
answers = cons (answer works quiet nil) (
    cons (answer works quiet (cons (answer works quiet nil) (cons (answer gives_up quiet nil) nil)))
      (cons (answer cut_off quiet nil) nil))

abbrev no_tasks : TaskQueue ℕ
no_tasks = record { tasks = []; current = none }

events-answers :
    (loop counting enter 0 (some true) 0 no_tasks answers).events
    ≡ (0, ran 0)
      ∷ (0, waited)
      ∷ (0, ran 1)
      ∷ (1, ran 10)
      ∷ (1, waited)
      ∷ (1, ran 11)
      ∷ (1, stopped)
      ∷ (0, waited)
      ∷ (0, stopped)
      ∷ []
unfolding loop choose react schedule_each wait interrupted unexpected go_on after_set early is_empty
    next schedule
events-answers = refl

loop-IsNested_example : IsNested 0 (loop counting enter 0 (some true) 0 no_tasks answers).events
loop-IsNested_example = loop-IsNested counting enter 0 (some true) 0 no_tasks answers

abbrev stops : Round ℕ
stops = record works { result = some stop_user }

-- The first task of the set inside stops the user.
abbrev stopping : Answers ℕ
stopping =
    cons (answer works quiet nil)
      (cons (answer works quiet (cons (answer stops quiet nil) nil)) nil)

abbrev so_far : List (ℕ × Event ℕ)
so_far = (0, ran 0) ∷ (0, waited) ∷ (0, ran 1) ∷ []

reached : Reaches counting enter (some true) stop_user 10 so_far 0 0 no_tasks stopping 1
unfolding loop choose react schedule_each wait go_on early is_empty next schedule
reached =
    later {s' = 1} {q' = record { tasks = []; current = some 0 }} ((0, ran 0) ∷ (0, waited) ∷ [])
      refl (deeper refl refl refl refl refl (here refl refl refl refl refl))

loop_unwinds_example :
    (loop counting enter 0 (some true) 0 no_tasks stopping
      ≡ record { events = so_far ++ unwinding 10 0 1; outcome = returned stop_user })
    × (process (some stop_user) ≡ some stop_user)
loop_unwinds_example =
    loop_unwinds counting enter (some true) stop_user 10 so_far 0 0 no_tasks stopping 1 refl reached
