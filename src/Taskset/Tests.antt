-- ===== src/Taskset/Tests.antt =====
-- The theorems on taskset/ at concrete inputs.
use launce.Base.{ℕ, ◌≤◌, ◌≡◌, ◌↔◌, refl, true, false, none, some, List, [], ◌∷◌, length, arith}
use launce.Taskset.Task.{
  Task, Tasks, func, tagged, sequential, weighted, nil, cons, get_tags, get_weight,
}
use launce.Taskset.Task
use launce.Taskset.User.{master_options, on_start, LeaveOptions, on_start-receive}
use launce.Worker.{
  SpawnPayload, new_worker, receive, receive_spawn, spawn, Turn, receives, cycles, calls_quit,
  stops, spawning_completed, turn, run, cycle_step, take_stop,
}
use launce.Taskset.Sequential.{
  Sequential, init, take_next, cycle_from, take_next-cycle, next-filter_tasks,
}
use launce.Taskset.Sequential
use launce.Taskset.Filter.{
  FilterOption, include_tags, exclude_tags, filter_tasks, filter_all, has_any, has, options,
}
use launce.Taskset.Filter.Selection.{runs_all, leaves_all, pick, runs-filter_tasks}
use launce.Taskset.Filter.Readiness.{AreReady, filter_tasks-AreReady}

-- Two tasks, and a set with one task of each of two tags.
abbrev inner : Tasks
inner = cons (tagged (func 2) ("slow" ∷ [])) (cons (tagged (func 3) ("fast" ∷ [])) nil)

abbrev tree : Tasks
tree = cons (func 1) (cons (tagged (sequential inner inner 0) ("api" ∷ [])) nil)

abbrev wanted : List FilterOption
wanted = include_tags ("api" ∷ []) ∷ exclude_tags ("slow" ∷ []) ∷ []

runs-tree : runs_all (filter_tasks wanted tree) ≡ 3 ∷ []
unfolding runs_all filter_tasks filter_all has_any options has get_tags Task.length
runs-tree = refl

runs-filter_tasks_example :
    runs_all (filter_tasks wanted tree) ≡ pick (options wanted) (leaves_all [] tree)
runs-filter_tasks_example = runs-filter_tasks wanted tree

filter_tasks-AreReady_example : AreReady (filter_tasks wanted tree)
filter_tasks-AreReady_example = filter_tasks-AreReady wanted tree

abbrev three : Sequential ℕ
three = record { tasks = 7 ∷ 8 ∷ 9 ∷ []; filtered = 7 ∷ 8 ∷ 9 ∷ []; index = 2 }

next-filter_tasks_example :
    ((Sequential.next (Sequential.filter_tasks three (λ ts. [])) ≡ none) ↔ (0 ≤ 2))
    × ((Sequential.next (init (Sequential.filter_tasks three (λ ts. []))) ≡ none)
        ↔ (length {A = ℕ} [] ≡ 0))
next-filter_tasks_example = next-filter_tasks three (λ ts. [])

abbrev asked : SpawnPayload
asked = record {
  timestamp = 5;
  user_classes_count = ("A", 3) ∷ [];
  host = "http://localhost";
  stop_timeout = 0;
  parsed_options = record {
    reset_stats = false;
    tags = some ("api" ∷ []);
    exclude_tags = some ("slow" ∷ []);
  };
}

-- The master confirms that all users are spawned, and asks to stop; the cycle begins its turn on that.
abbrev turns : List Turn
turns =
    receives (spawning_completed 7)
    ∷ receives stops
    ∷ cycles true (λ name. true) false
    ∷ calls_quit
    ∷ []

leave_options : LeaveOptions 5 (receive new_worker (spawn asked)) turns
unfolding LeaveOptions turn receive receive_spawn new_worker cycle_step take_stop
leave_options = ground arith

on_start-receive_example :
    runs_all (on_start (run (receive new_worker (spawn asked)) turns) tree)
    ≡ pick (master_options asked.parsed_options) (leaves_all [] tree)
on_start-receive_example =
    on_start-receive new_worker asked turns tree (unfold new_worker in refl) leave_options
