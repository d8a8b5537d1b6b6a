-- ===== src/Examples/TaggedTask.antt =====
-- _examples/tagged-task/user.go: a sequential set of tasks with tags, and the tasks that a user is left with under the
-- options of the master.
use launce.Base.{ℕ, Option, List, [], ◌∷◌, ◌++◌, String}
use launce.Taskset.Task.{
  Task, Tasks, func, nil, cons, tagged, weighted, sequential, random, tag, to_list,
}
use launce.Taskset.Filter.{filter_tasks}
use launce.Taskset.User.{on_start_options}

-- `TaskSet`; a task is its number.
unfoldable pub tasks : Tasks
unfolding tag
tasks = cons (tag (func 1) ("tag1" ∷ [])) (
    cons (tag (func 2) ("tag1" ∷ "tag2" ∷ []))
      (cons (tag (func 3) ("tag3" ∷ [])) (cons (func 4) nil)))

-- The number of a task function.
abbrev number : Task → List ℕ
number (func n) = n ∷ []
number (tagged t tags) = number t
number (weighted t w) = number t
number (sequential all filtered index) = []
number (random all filtered) = []

abbrev numbers : List Task → List ℕ
numbers [] = []
numbers (t ∷ ts) = number t ++ numbers ts

-- The tasks behind `OnStart`, where `Tags` returns these.
abbrev pub left : Option (List String) → Option (List String) → List ℕ
left tags ex_tags = numbers (to_list (filter_tasks (on_start_options (tags, ex_tags)) tasks))
